-- ===== src/Server/Uart.antt =====
-- The serial half of server/tls-alex-server.cpp, with `sendNetworkData`, which its handlers call.
use cg2111a_b.Base.{ℕ, ◌>>=◌, ◌∷◌, [], List, Option, some, if◌then◌else◌, ◌==◌}
use cg2111a_b.Base.Int.{pos, ltb_ℤ, leb_ℤ}
use cg2111a_b.Memory.{c_string}
use cg2111a_b.Packet.{Packet, packet_bytes, packet_bytes_len, words_bytes}
use cg2111a_b.Serialize.{Result, packet_bad, packet_checksum_bad, serialize}
use cg2111a_b.Pi.{resp_ok, resp_status}
use cg2111a_b.Server.{
  Server, Locals, printf, write, call, uart_response, uart_error, uart_message, uart_hello,
  net_error_packet, net_status_packet, net_message_packet,
}

-- `serialWrite` of server/serial.cpp.
unfoldable pub server_write : List ℕ → Server → Server
server_write bytes s = if leb_ℤ (pos 0) s.fd then call (write bytes) s else s

unfoldable pub uart_error_seen : Result → Server → Server
uart_error_seen packet_bad s = call (printf "ERROR: Bad Magic Number\n" []) s
uart_error_seen packet_checksum_bad s = call (printf "ERROR: Bad checksum\n" []) s
uart_error_seen _ s = call (printf "ERROR: UNKNOWN ERROR\n" []) s

module _ (w : Locals) where
  open w use {stack, count}

  -- The code that would write the bytes is missing, so `c` keeps what the stack held.
  unfoldable pub send_network_data : List ℕ → Server → Server
  send_network_data bytes s =
      let said = call (printf "WRITING TO CLIENT\n" []) s in
      if s.network_active then record said { network_active = ltb_ℤ (pos 0) (count said) } else s

  unfoldable pub report_error : Packet → Server → Server
  unfolding send_network_data
  report_error p s =
      send_network_data (net_error_packet ∷ p.command ∷ [])
        (call (printf "UART ERROR: %d\n" (p.command ∷ [])) s)

  -- `%s` reads the array up to its terminator, and past its end when it has none.
  unfoldable pub forward_message : Packet → Server → Option Server
  unfolding send_network_data
  forward_message p s = do
    message ← c_string p.text
    some (
        send_network_data (net_message_packet ∷ p.text)
          (call (printf "UART MESSAGE PACKET: %s\n" message) s))

  unfoldable pub forward_status : Packet → Server → Server
  unfolding send_network_data
  forward_status p s =
      send_network_data (net_status_packet ∷ words_bytes p.params)
        (call (printf "UART STATUS PACKET\n" []) s)

  unfoldable pub forward_response : Packet → Server → Server
  unfolding send_network_data forward_status
  forward_response p s =
      if p.command == resp_ok
      then send_network_data (net_error_packet ∷ resp_ok ∷ []) (call (printf "Command OK\n" []) s)
      else (if p.command == resp_status then forward_status p s else call (printf "Boo\n" []) s)

  -- `handleUARTPacket`.
  unfoldable pub handle_uart_packet : Packet → Server → Option Server
  unfolding forward_response report_error forward_message
  handle_uart_packet p s =
      if p.packet_type == uart_response
      then some (forward_response p s)
      else (if p.packet_type == uart_error
          then some (report_error p s)
          else (if p.packet_type == uart_message then forward_message p s else some s))

  unfoldable pub uart_send_packet : Packet → Server → Option Server
  unfolding server_write
  uart_send_packet p s = do
    (buffer, len) ← serialize (stack s).slot (stack s).buffer (packet_bytes p) packet_bytes_len
    some (server_write buffer s)

  -- `sendHello`.
  unfoldable pub greet : Server → Option Server
  unfolding uart_send_packet
  greet s = uart_send_packet (record ((stack s).packet) { packet_type = uart_hello }) s
