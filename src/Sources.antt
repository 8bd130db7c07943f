-- ===== src/Sources.antt =====
-- src/xray_e2e_prober/sources.py: how the content of a source is fetched. URL parsing, the HTTP client
-- and the file system are arguments.
pub mod Config
pub mod Http
pub mod Local
pub mod Requests
pub mod Origins
pub mod Documents
pub mod Tests
