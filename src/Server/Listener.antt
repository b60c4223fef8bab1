-- ===== src/Server/Listener.antt =====
-- The serial listener of the server: `uartReceiveThread` of server/tls-alex-server.cpp.
use cg2111a_b.Base.{ℕ, [], List, Option, partly, wholly}
use cg2111a_b.Serialize.{Result}
use cg2111a_b.Packet.{as_packet}
use cg2111a_b.Link.{Read, Thread, receive}
use cg2111a_b.Server.{Server, Locals, printf, call}
use cg2111a_b.Server.Uart.{uart_error_seen, handle_uart_packet}

-- What `uartReceiveThread` does with a bad packet.
unfoldable pub uart_packet_error : Result → Server → Server
unfolding uart_error_seen
uart_packet_error r s = uart_error_seen r (call (printf "PACKET ERROR\n" []) s)

-- The state of the listener is that of the server, or a fault.
abbrev pub uart_refused : Result → Option Server → Option Server
uart_refused r m = wholly uart_packet_error r m

module _ (w : Locals) where
  -- The bytes that `deserialize` delivers, read as a packet.
  abbrev pub uart_handled : List ℕ → Option Server → Option Server
  uart_handled bytes m = partly (handle_uart_packet w) (as_packet bytes) m

  abbrev pub Listening : Type 0
  Listening = Thread uart_handled uart_refused

  -- The loop over the reads that were made so far.
  abbrev pub uart_receive : Listening → List Read → Option Listening
  uart_receive t reads = receive uart_handled uart_refused t reads
