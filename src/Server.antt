-- ===== src/Server.antt =====
-- The server that runs in the place of the Raspberry Pi's program (server/tls-alex-server.cpp): its
-- globals and what it does to the outside.
pub mod Uart
pub mod Listener
pub mod Network
pub mod Turns
pub mod Table
pub mod Requests
pub mod Closing
pub mod Receiving
pub mod Tests
use cg2111a_b.Base.{ℕ, Bool, List, ◌∷◌, Option, String}
use cg2111a_b.Base.Int.{ℤ}
use cg2111a_b.Pi.{Stack}

-- server/constants.h and server/netconstants.h; the packet types differ from those of RPi/constants.h.
abbrev pub uart_command : ℕ
uart_command = 0

abbrev pub uart_response : ℕ
uart_response = 1

abbrev pub uart_error : ℕ
uart_error = 2

abbrev pub uart_message : ℕ
uart_message = 3

abbrev pub uart_hello : ℕ
uart_hello = 4

abbrev pub net_error_packet : ℕ
net_error_packet = 0

abbrev pub net_status_packet : ℕ
net_status_packet = 1

abbrev pub net_message_packet : ℕ
net_message_packet = 2

abbrev pub net_command_packet : ℕ
net_command_packet = 3

-- The calls that reach the outside.
pub data Call : Type 0 where
  printf : String → List ℕ → Call
  perror : String → Call
  write : List ℕ → Call

-- The globals, with the descriptor of the serial port, and the calls made so far, the last one
-- first. A connection is its number; `none` is NULL.
pub record Server : Type 0 where
  pub fd : ℤ
  pub network_active : Bool
  pub tls_conn : Option ℕ
  pub calls : List Call

abbrev pub call : Call → Server → Server
call c s = record s { calls = c ∷ s.calls }

-- What uninitialised local variables hold: those of a packet that is being sent, and the count of
-- `sendNetworkData`, which is never assigned.
pub record Locals : Type 0 where
  pub stack : Server → Stack
  pub count : Server → ℤ
