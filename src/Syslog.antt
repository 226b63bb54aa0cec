-- ===== src/Syslog.antt =====
-- ios/syslog: the decoder of escaped bytes in vis.go.
pub mod Vis
