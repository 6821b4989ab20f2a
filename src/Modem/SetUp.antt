-- ===== src/Modem/SetUp.antt =====
-- How `start` of src/tcp_input_server.cpp and of src/tcp_output_server.cpp may end.
use qpsk_b.Base.{ℕ, Option, none, some}

-- The first call that fails, or the descriptor of the socket that listens.
pub data SetUp : Type 0 where
  no_socket invalid_address bind_failed listen_failed : SetUp
  listening : ℕ → SetUp

-- What `std::runtime_error` says.
pub data StartError : Type 0 where
  socket_error address_error bind_error listen_error : StartError

-- The error thrown, and `listen_fd_`, which is closed and reset before an error.
unfoldable pub outcome : SetUp → Option StartError × Option ℕ
outcome no_socket = (some socket_error, none)
outcome invalid_address = (some address_error, none)
outcome bind_failed = (some bind_error, none)
outcome listen_failed = (some listen_error, none)
outcome (listening fd) = (none, some fd)
