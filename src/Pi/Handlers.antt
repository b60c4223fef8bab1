-- ===== src/Pi/Handlers.antt =====
-- The handlers of RPi/usart.cpp for what comes from the Arduino.
use cg2111a_b.Base.{Option, some, ◌>>=◌, ℕ, ◌||◌, [], ◌∷◌, String, true, if◌then◌else◌, ◌==◌}
use cg2111a_b.Memory.{c_string}
use cg2111a_b.Packet.{Packet, param}
use cg2111a_b.Serialize.{Result, packet_bad, packet_checksum_bad}
use cg2111a_b.Pi.{
  Pi, World, word, text, emit, printf, printw, packet_type_response, packet_type_error,
  packet_type_message, resp_ok, resp_status, resp_bad_packet, resp_bad_checksum, resp_bad_command,
  resp_bad_response, resp_color, resp_dist,
}
use cg2111a_b.Pi.Colour.{handle_color, handle_distance}

module _ {Float : Type 0} where
  unfoldable pub handle_error : Result → Pi Float → Pi Float
  handle_error packet_bad s = emit (printf "ERROR: Bad Magic Number\n" []) s
  handle_error packet_checksum_bad s = emit (printf "ERROR: Bad checksum\n" []) s
  handle_error _ s = emit (printf "ERROR: UNKNOWN ERROR\n" []) s

  -- What `receiveThread` does with a bad packet.
  unfoldable pub packet_error : Result → Pi Float → Pi Float
  unfolding handle_error
  packet_error r s = handle_error r (emit (printf "PACKET ERROR\n" []) s)

  abbrev line : String → ℕ → Pi Float → Pi Float
  line format w s = emit (printf format (word w ∷ [])) s

  unfoldable pub handle_status : Packet → Pi Float → Pi Float
  handle_status p s =
      let s0 = emit (printf "\n ------- ALEX STATUS REPORT ------- \n\n" []) s in
      let s1 = line "Left Forward Ticks:\t\t%d\n" (param p 0) s0 in
      let s2 = line "Right Forward Ticks:\t\t%d\n" (param p 1) s1 in
      let s3 = line "Left Reverse Ticks:\t\t%d\n" (param p 2) s2 in
      let s4 = line "Right Reverse Ticks:\t\t%d\n" (param p 3) s3 in
      let s5 = line "Left Forward Ticks Turns:\t%d\n" (param p 4) s4 in
      let s6 = line "Right Forward Ticks Turns:\t%d\n" (param p 5) s5 in
      let s7 = line "Left Reverse Ticks Turns:\t%d\n" (param p 6) s6 in
      let s8 = line "Right Reverse Ticks Turns:\t%d\n" (param p 7) s7 in
      let s9 = line "Forward Distance:\t\t%d\n" (param p 8) s8 in
      let s10 = line "Reverse Distance:\t\t%d\n" (param p 9) s9 in
      emit (printf "\n---------------------------------------\n\n" []) s10

  unfoldable pub handle_error_response : Packet → Pi Float → Pi Float
  handle_error_response p s =
      if p.command == resp_bad_packet
      then emit (printf "Arduino received bad magic number\n" []) s
      else (if p.command == resp_bad_checksum
          then emit (printf "Arduino received bad checksum\n" []) s
          else (if p.command == resp_bad_command
              then emit (printf "Arduino received bad command\n" []) s
              else (if p.command == resp_bad_response
                  then emit (printf "Arduino received unexpected response\n" []) s
                  else emit (printf "Arduino reports a weird error\n" []) s)))

  -- `%s` reads the array up to its terminator, and past its end when it has none.
  unfoldable pub handle_message : Packet → Pi Float → Option (Pi Float)
  handle_message p s = do
    message ← c_string p.text
    some (emit (printf "Message from Alex: %s\n" (text message ∷ [])) s)

module _ (w : World) where
  open w use {Float}

  abbrev pub acknowledged : Pi Float → Pi Float
  acknowledged s =
      let said =
        if s.keyboard_mode == 3 || s.keyboard_mode == 4
        then emit (printw "Command OK\n" []) s
        else emit (printf "Command OK\n" []) s in
      record said { clear_to_send_command = true }

  unfoldable pub handle_response : Packet → Pi Float → Pi Float
  unfolding handle_status handle_color handle_distance
  handle_response p s =
      if p.command == resp_ok
      then acknowledged s
      else (if p.command == resp_status
          then handle_status p s
          else (if p.command == resp_color
              then handle_color w p s
              else (if p.command == resp_dist
                  then handle_distance w p s
                  else emit (printf "Arduino is confused\n" []) s)))

  -- Packets of the three command types, and of a type with no case, are ignored.
  unfoldable pub handle_packet : Packet → Pi Float → Option (Pi Float)
  unfolding handle_response handle_error_response handle_message
  handle_packet p s =
      if p.packet_type == packet_type_response
      then some (handle_response p s)
      else (if p.packet_type == packet_type_error
          then some (handle_error_response p s)
          else (if p.packet_type == packet_type_message then handle_message p s else some s))
