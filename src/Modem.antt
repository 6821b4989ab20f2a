-- ===== src/Modem.antt =====
-- The modem's application: its configuration, its TCP servers, and the threads of src/main.cpp.
pub mod SetUp
pub mod TcpInput
pub mod InputThread
pub mod RxThread
pub mod TcpOutput
