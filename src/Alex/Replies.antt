-- ===== src/Alex/Replies.antt =====
-- What the Arduino sends: the first half of alex/usart.ino, and `writeSerial` of alex/serial.ino.
use cg2111a_b.Base.{ℕ, List, ◌++◌, take, replicate}
use cg2111a_b.Packet.{Packet, max_str_len, packet_bytes_len, set_param}
use cg2111a_b.Pi.{
  packet_type_response, packet_type_error, packet_type_message, resp_ok, resp_status,
  resp_bad_packet, resp_bad_checksum, resp_bad_command, resp_bad_response,
}
use cg2111a_b.Alex.{Alex, World, write, emit}

abbrev pub write_serial : {R : Type 0} → List ℕ → ℕ → Alex R → Alex R
write_serial buffer len s = emit (write (take len buffer)) s

-- `strncpy(dest, message, n)` over an array of `n` bytes.
abbrev pub strncpy : List ℕ → ℕ → List ℕ
strncpy message n = take n (message ++ replicate n 0)

module _ (w : World) where
  open w use {Receiver}

  unfoldable pub send_response : Packet → Alex Receiver → Alex Receiver
  send_response p s =
      let called = w.serialize s (w.buffer s) p packet_bytes_len in write_serial called.0 called.1 s

  -- A local packet of which two members were assigned.
  abbrev pub typed : ℕ → ℕ → Alex Receiver → Packet
  typed kind code s = record (w.packet s) { packet_type = kind; command = code }

  abbrev pub status_packet : Alex Receiver → Packet
  status_packet s =
      let p4 = set_param 3 s.right_reverse_ticks (
        set_param 2 s.left_reverse_ticks (
          set_param 1 s.right_forward_ticks
            (set_param 0 s.left_forward_ticks (typed packet_type_response resp_status s)))) in
      let p8 = set_param 7 s.right_reverse_turns (
        set_param 6 s.left_reverse_turns
          (set_param 5 s.right_forward_turns (set_param 4 s.left_forward_turns p4))) in
      set_param 11 s.target_ticks
        (set_param 10 s.delta_ticks (set_param 9 s.reverse_dist (set_param 8 s.forward_dist p8)))

  unfoldable pub send_status : Alex Receiver → Alex Receiver
  send_status s = send_response (status_packet s) s

  unfoldable pub send_message : List ℕ → Alex Receiver → Alex Receiver
  send_message message s =
      let p = w.packet s in
      send_response
        (record p { packet_type = packet_type_message; text = strncpy message max_str_len }) s

  unfoldable pub send_bad_packet : Alex Receiver → Alex Receiver
  send_bad_packet s = send_response (typed packet_type_error resp_bad_packet s) s

  unfoldable pub send_bad_checksum : Alex Receiver → Alex Receiver
  send_bad_checksum s = send_response (typed packet_type_error resp_bad_checksum s) s

  unfoldable pub send_bad_command : Alex Receiver → Alex Receiver
  send_bad_command s = send_response (typed packet_type_error resp_bad_command s) s

  unfoldable pub send_bad_response : Alex Receiver → Alex Receiver
  send_bad_response s = send_response (typed packet_type_error resp_bad_response s) s

  unfoldable pub send_ok : Alex Receiver → Alex Receiver
  send_ok s = send_response (typed packet_type_response resp_ok s) s
