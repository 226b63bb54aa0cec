-- ===== src/Tests.antt =====
-- The theorems at concrete inputs, and runs of the definitions.
mod Dtx
mod Xpc
mod Lines
mod Plist
mod Channels
mod Connections
mod Afc
mod Tunnels
mod Streams
