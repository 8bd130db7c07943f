-- ===== src/Assignments.antt =====
-- src/xray_e2e_prober/assignments.py: which rule decides how an entry is checked. Rules and entries
-- are the typed models, so the other spellings that `_get` accepts in dictionaries do not occur. The
-- glob test of `fnmatch` and the search of a compiled expression are arguments.
pub mod Resolve
pub mod Precedence
pub mod Tests
