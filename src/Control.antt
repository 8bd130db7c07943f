-- ===== src/Control.antt =====
-- src/xray_e2e_prober/control.py: the control protocol over a local socket, one line of JSON each way.
-- JSON itself, the redaction of errors and the handler of commands are arguments.
pub mod Protocol
pub mod Exchange
pub mod Server
pub mod Stopped
pub mod Tests
