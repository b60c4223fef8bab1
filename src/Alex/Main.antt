-- ===== src/Alex/Main.antt =====
-- `setup` and `loop` of alex/alex.ino, and the reading of packets of alex/usart.ino and
-- alex/serial.ino. A run of more bytes than `readSerial`'s buffer has room for is undefined
-- behaviour, `none`. What `readSerial` finds available is an input.
use cg2111a_b.Base.{
  ℕ, Bool, ◌&&◌, List, [], ◌∷◌, Option, none, some, ◌>>=◌, if◌then◌else◌, ◌==◌, ltb, leb, length,
  true, false,
}
use Prim.Native.Nat.{bit_and, bit_or}
use cg2111a_b.Base.Int.{ℤ, pos, ltb_ℤ}
use cg2111a_b.Memory.{overwrite}
use cg2111a_b.Packet.{Packet}
use cg2111a_b.Serialize.{
  Result, packet_size, packet_ok, packet_bad, packet_checksum_bad, packet_incomplete,
}
use cg2111a_b.Pi.{packet_type_hello}
use cg2111a_b.Alex.{
  Alex, World, emit, read, delay, begin, cli, sei, set_register, stopped, forwards, backwards,
  leftwards, rightwards,
}
use cg2111a_b.Alex.Motion.{stop}
use cg2111a_b.Alex.Encoders.{initialize_state}
use cg2111a_b.Alex.Replies.{
  send_message, send_ok, send_bad_packet, send_bad_checksum, send_bad_response,
}
use cg2111a_b.Alex.Sensors.{get_ultrasonic_distance, setup_ultrasonic, setup_colour_sensor}
use cg2111a_b.Alex.Commands.{handle_packet}

module _ {R : Type 0} where
  unfoldable pub enable_pullups : Alex R → Alex R
  enable_pullups s = record s {
    ddrd = bit_and s.ddrd 0b11110011;
    portd = bit_or s.portd 0b00001100;
  }

  unfoldable pub setup_eint : Alex R → Alex R
  setup_eint s = emit (set_register "EICRA" 0b10100000) (emit (set_register "EIMSK" 0b00001100) s)

  abbrev setup_serial : Alex R → Alex R
  setup_serial s = emit (begin 9600) s

  -- Empty.
  abbrev start_serial : Alex R → Alex R
  start_serial s = s

  unfoldable pub setup : Alex R → Alex R
  setup s =
      let serial = start_serial (setup_serial (setup_eint (emit cli s))) in
      let state = initialize_state (enable_pullups serial) in
      emit sei (setup_colour_sensor (setup_ultrasonic state))

-- Static storage starts as zeros; the two registers of port D as the reset leaves them.
abbrev pub globals : {R : Type 0} → R → ℕ → ℕ → Alex R
globals r portd ddrd = record {
  dir = 0;
  prevent_collision = false;
  red_freq = 0;
  green_freq = 0;
  blue_freq = 0;
  linearactuatordist = 0;
  left_forward_ticks = 0;
  right_forward_ticks = 0;
  left_reverse_ticks = 0;
  right_reverse_ticks = 0;
  left_forward_turns = 0;
  right_forward_turns = 0;
  left_reverse_turns = 0;
  right_reverse_turns = 0;
  forward_dist = 0;
  reverse_dist = 0;
  delta_dist = 0;
  new_dist = 0;
  delta_ticks = 0;
  target_ticks = 0;
  portd = portd;
  ddrd = ddrd;
  receiver = r;
  calls = [];
}

-- "auto stopped".
abbrev pub auto_stopped : List ℕ
auto_stopped =
    b'a' ∷ b'u' ∷ b't' ∷ b'o' ∷ b' ' ∷ b's' ∷ b't' ∷ b'o' ∷ b'p' ∷ b'p' ∷ b'e' ∷ b'd' ∷ []

abbrev pub is_near : ℤ → Bool
is_near d = ltb_ℤ d (pos 15) && ltb_ℤ (pos 10) d

module _ (w : World) where
  open w use {Receiver}

  -- "return count" bytes of those available.
  unfoldable pub read_serial : List ℕ → List ℕ → Alex Receiver → Option (List ℕ × Alex Receiver)
  read_serial available buffer s =
      if leb (length available) packet_size
      then some (overwrite buffer available, emit (read available) s)
      else none

  unfoldable pub read_packet :
      List ℕ → Packet → Alex Receiver → Option (Result × Packet × Alex Receiver)
  read_packet available packet s = do
    (buffer, s') ← read_serial available (w.buffer s) s
    let called = (do
      (receiver', packet', result) ← w.deserialize s'.receiver buffer (length available) packet
      some (result, packet', record s' { receiver = receiver' }))
    if length available == 0 then some (packet_incomplete, packet, s') else called

  -- The three parts of `loop`.
  unfoldable pub avoid_collision : Alex Receiver → Alex Receiver
  avoid_collision s =
      let measured = get_ultrasonic_distance w s in
      let after =
        if is_near measured.0
        then send_message w auto_stopped (stop w measured.1)
        else measured.1 in
      if s.prevent_collision then after else s

  abbrev pub wait_stopped : Alex Receiver → Alex Receiver
  wait_stopped s = emit (delay 1000) (stop w s)

  abbrev pub end_distance : Alex Receiver → Alex Receiver
  end_distance s = wait_stopped (record s { delta_dist = 0; new_dist = 0 })

  unfoldable pub check_distance : Alex Receiver → Alex Receiver
  check_distance s =
      let checked =
        if s.dir == forwards
        then (if ltb s.new_dist s.forward_dist then end_distance s else s)
        else (if s.dir == backwards
            then (if ltb s.new_dist s.reverse_dist then end_distance s else s)
            else (if s.dir == stopped then end_distance s else s)) in
      if ltb 0 s.delta_dist then checked else s

  abbrev pub end_turn : Alex Receiver → Alex Receiver
  end_turn s = wait_stopped (record s { delta_ticks = 0; target_ticks = 0 })

  unfoldable pub check_turn : Alex Receiver → Alex Receiver
  check_turn s =
      let checked =
        if s.dir == leftwards
        then (if leb s.target_ticks s.left_reverse_turns then end_turn s else s)
        else (if s.dir == rightwards
            then (if leb s.target_ticks s.right_reverse_turns then end_turn s else s)
            else (if s.dir == stopped then end_turn s else s)) in
      if ltb 0 s.delta_ticks then checked else s

  -- What `loop` does with the result of `readPacket`.
  unfoldable pub answer : Result → Packet → Alex Receiver → Option (Alex Receiver)
  answer packet_ok p s = handle_packet w p s
  answer packet_bad p s = some (send_bad_packet w s)
  answer packet_checksum_bad p s = some (send_bad_checksum w s)
  answer _ p s = some s

  unfoldable pub loop : List ℕ → Alex Receiver → Option (Alex Receiver)
  loop available s = do
    let checked = check_turn (check_distance (avoid_collision s))
    (result, packet, s') ← read_packet available (w.packet checked) checked
    answer result packet s'

  -- `waitForHello` over the bytes that each turn of its loops finds; `none` inside: it still
  -- waits. Nothing calls it.
  unfoldable pub greeted : Result → Packet → Alex Receiver → Bool × Alex Receiver
  greeted packet_ok p s =
      if p.packet_type == packet_type_hello
      then (true, send_ok w s)
      else (false, send_bad_response w s)
  greeted packet_bad p s = (false, send_bad_packet w s)
  greeted packet_checksum_bad p s = (false, send_bad_checksum w s)
  greeted _ p s = (false, s)

  unfoldable pub wait_for_hello :
      List (List ℕ) → Packet → Alex Receiver → Option (Option (List (List ℕ) × Alex Receiver))
  wait_for_hello [] hello s = some none
  wait_for_hello (available ∷ more) hello s = do
    (result, packet, s') ← read_packet available hello s
    let turned = greeted result packet s'
    let rest = wait_for_hello more packet turned.1
    if turned.0 then some (some (more, turned.1)) else rest
