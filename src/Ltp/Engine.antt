-- ===== src/Ltp/Engine.antt =====
-- include/ltp_cla/ltp_engine.h and src/ltp_cla/ltp_engine.cpp, a handler after another.
pub mod State
pub mod Send
pub mod Originate
pub mod Report
pub mod Receive
pub mod Finish
pub mod Dispatch
pub mod Frame
pub mod Capacity
pub mod Reassembly
pub mod Transfer
pub mod Retransmission
pub mod Limits
pub mod Expiry
