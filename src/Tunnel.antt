-- ===== src/Tunnel.antt =====
-- ios/tunnel: the pairing records of tlv.go, and the manager of tunnel_api.go.
pub mod Tlv
pub mod Manager
pub mod Agent
pub mod Framing
pub mod Control
