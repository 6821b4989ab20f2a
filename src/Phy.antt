-- ===== src/Phy.antt =====
-- The transmit and receive chain beside the radio: include/qpsk_b200 and src.
pub mod SpscQueue
pub mod Frame
pub mod FecEncoder
pub mod FecDecoder
pub mod Samples
pub mod SymbolMapper
pub mod FrameSync
pub mod PulseShaper
pub mod Encoder
pub mod Decoder
pub mod Link
