-- ===== src/Xpc.antt =====
-- ios/xpc/encoding.go: RemoteXPC objects and messages.
pub mod Value
pub mod Encode
pub mod Decode
pub mod Scalars
pub mod Wire
pub mod Objects
pub mod RoundTrip
pub mod Message
pub mod Steps
pub mod Fuel
