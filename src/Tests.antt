-- ===== src/Tests.antt =====
-- Concrete inputs: each theorem at one of them, and runs of the definitions.
mod Wire
mod Tracking
mod Timers
mod Transfers
mod Reports
mod Radio
mod Link
mod Receiver
mod Server
mod Threads
mod Adapter
mod Modem
