-- ===== src/VideoCodec.antt =====
-- The choice of the video codec in libs/scrap/src/common/codec.rs, as it is built with the features
-- `hwcodec` and `vram` and without `mediacodec`. The codecs themselves are libraries in C.
pub mod Formats
pub mod Encoder
pub mod Decoder
pub mod Frequent
pub mod Usable
pub mod Negotiated
pub mod Order
mod Tests
