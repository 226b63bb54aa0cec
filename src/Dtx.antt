-- ===== src/Dtx.antt =====
-- ios/dtx_codec: the messages of the DTX protocol.
pub mod Message
pub mod Auxiliary
pub mod Encoder
pub mod Decoder
pub mod Fragment
pub mod Channel
pub mod Connection
