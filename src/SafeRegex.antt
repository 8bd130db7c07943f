-- ===== src/SafeRegex.antt =====
-- src/xray_e2e_prober/safe_regex.py: the validator of the regular expressions that assignments may
-- use. A text is the list of its code points, and a cursor is the suffix that is left to read. The
-- Unicode classes of characters and Python's compiler of expressions are arguments.
pub mod Validate
pub mod Tokens
pub mod Classes
pub mod Flat
pub mod Wrapping
pub mod Accepted
pub mod Tests
