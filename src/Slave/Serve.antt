-- ===== src/Slave/Serve.antt =====
-- The threads of src/meter_slave.cpp. What the calls of libmodbus and of the system return in one turn of a
-- loop is an input. Times are on the steady clock.
pub mod Tcp
pub mod Idle
pub mod Rtu
pub mod Accept
pub mod Sockets
use fronius_bridge.Prelude.{ℕ, Bool, true, false, ◌||◌}
use fronius_bridge.Modbus.{
  Errno, enomem, ebadf, eio, etimedout, eagain, ewouldblock, eintr, other_errno,
}

-- What `modbus_receive` returns: the length of a request, 0, or -1 with errno.
pub data Received : Type 0 where
  request : (length : ℕ) → Received
  nothing : Received
  failed : Errno → Received

-- A turn of a receive loop: the running flag as the loop tests it, what was received and when, whether there
-- is a mapping, and whether the reply was sent.
pub record ReceiveTurn : Type 0 where
  pub is_running : Bool
  pub received : Received
  pub now : ℕ
  pub has_mapping : Bool
  pub is_replied : Bool

-- `errno == ETIMEDOUT || errno == EAGAIN || errno == EWOULDBLOCK`
abbrev pub is_timeout : Errno → Bool
is_timeout etimedout = true
is_timeout eagain = true
is_timeout ewouldblock = true
is_timeout enomem = false
is_timeout ebadf = false
is_timeout eio = false
is_timeout eintr = false
is_timeout (other_errno n) = false

abbrev pub is_interrupted : Errno → Bool
is_interrupted eintr = true
is_interrupted enomem = false
is_interrupted ebadf = false
is_interrupted eio = false
is_interrupted etimedout = false
is_interrupted eagain = false
is_interrupted ewouldblock = false
is_interrupted (other_errno n) = false

-- `errno == EBADF || errno == EIO`
abbrev pub is_serial_loss : Errno → Bool
is_serial_loss ebadf = true
is_serial_loss eio = true
is_serial_loss enomem = false
is_serial_loss etimedout = false
is_serial_loss eagain = false
is_serial_loss ewouldblock = false
is_serial_loss eintr = false
is_serial_loss (other_errno n) = false
