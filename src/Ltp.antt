-- ===== src/Ltp.antt =====
-- The LTP convergence layer: src/ltp_cla and include/ltp_cla.
pub mod Sdnv
pub mod SegType
pub mod Segment
pub mod Tracker
pub mod Framing
pub mod Egress
pub mod Adapter
pub mod Config
pub mod Session
pub mod Timer
pub mod Engine
