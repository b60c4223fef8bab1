-- ===== src/Alex/Delivery.antt =====
-- From the Raspberry Pi's wire to the firmware's handlers (alex/alex.ino, alex/usart.ino): a packet
-- that several turns of `loop` read piece by piece.
use cg2111a_b.Base.{
  ℕ, ◌≤◌, ◌<◌, ◌≡◌, refl, ap, sym, ◌∙◌, arith, List, [], ◌∷◌, ◌++◌, append-nil, append_assoc,
  Option, none, some, ◌>>=◌, if◌then◌else◌, length, drop, length-append, le→leb, ne→eq_false,
  if-holds, All,
}
use cg2111a_b.Packet.{Packet, packet_bytes}
use cg2111a_b.Packet.Layout.{IsPacket, length-packet_bytes}
use cg2111a_b.Serialize.{Comms, Result, packet_size, packet_ok, packet_incomplete}
use cg2111a_b.Serialize.Frame.{IsComms}
use cg2111a_b.Serialize.Roundtrip.{frame}
use cg2111a_b.Link.Stream.{overwrite_front, length-frame}
use cg2111a_b.Alex.{Alex, World, emit, read}
use cg2111a_b.Alex.Motion.{stop, move, run_motors, set_speeds}
use cg2111a_b.Alex.Replies.{send_message, send_response}
use cg2111a_b.Alex.Sensors.{get_ultrasonic_distance}
use cg2111a_b.Alex.Commands.{handle_packet}
use cg2111a_b.Alex.Main.{
  is_near, auto_stopped, avoid_collision, check_distance, check_turn, end_distance, end_turn, loop,
  read_packet, read_serial, answer,
}
use cg2111a_b.Alex.Happenings.{
  distance_done, turn_done, check_distance_lem, check_turn_lem, loop_idle,
}
use cg2111a_b.Alex.Framing.{Framing}

bind_some : {A : Type 0} (m : Option A) → (m >>= some) ≡ m
bind_some none = refl
bind_some (some a) = refl

-- The bytes of some pieces.
abbrev pub joined : List (List ℕ) → List ℕ
joined [] = []
joined (c ∷ cs) = c ++ joined cs

module _ (w : World) where
  open w use {Receiver}

  -- A turn of `loop` for each piece that `readSerial` finds.
  unfoldable pub turns : List (List ℕ) → Alex Receiver → Option (Alex Receiver)
  turns [] s = some s
  turns (c ∷ cs) s = do s' ← loop w c s; turns cs s'

  abbrev checked : Alex Receiver → Alex Receiver
  checked s = check_turn w (check_distance w (avoid_collision w s))

  -- The checks do not touch the library's state.
  avoid_collision-receiver : (s : Alex Receiver) → (avoid_collision w s).receiver ≡ s.receiver
  unfolding avoid_collision get_ultrasonic_distance send_message send_response stop move run_motors
      set_speeds
  avoid_collision-receiver s =
      let (d, s') = get_ultrasonic_distance w s in
      let Same = λ (t : Alex Receiver). t.receiver ≡ s.receiver in
      if-holds Same s.prevent_collision
        (if is_near d then send_message w auto_stopped (stop w s') else s') s
        (λ e.
          if-holds Same (is_near d) (send_message w auto_stopped (stop w s')) s' (λ k. refl)
            (λ k. refl))
        (λ e. refl)

  check_distance-receiver : (s : Alex Receiver) → (check_distance w s).receiver ≡ s.receiver
  unfolding stop move run_motors set_speeds
  check_distance-receiver s =
      ap (λ t. t.receiver) (check_distance_lem w s)
      ∙ if-holds (λ (t : Alex Receiver). t.receiver ≡ s.receiver) (distance_done s)
          (end_distance w s) s (λ e. refl) (λ e. refl)

  check_turn-receiver : (s : Alex Receiver) → (check_turn w s).receiver ≡ s.receiver
  unfolding stop move run_motors set_speeds
  check_turn-receiver s =
      ap (λ t. t.receiver) (check_turn_lem w s)
      ∙ if-holds (λ (t : Alex Receiver). t.receiver ≡ s.receiver) (turn_done s) (end_turn w s) s
          (λ e. refl) (λ e. refl)

  checked-receiver : (s : Alex Receiver) → (checked s).receiver ≡ s.receiver
  checked-receiver s =
      check_turn-receiver (check_distance w (avoid_collision w s))
      ∙ check_distance-receiver (avoid_collision w s)
      ∙ avoid_collision-receiver s

  module _ (framing : Framing w) (packets : (s : Alex Receiver) → IsPacket (w.packet s))
      (buffers : (s : Alex Receiver) → length (w.buffer s) ≡ packet_size) where
    open framing use {Valid}
    open framing use {waiting}

    read_packet_call :
        (t : Alex Receiver) (b : ℕ) (chunk : List ℕ) (old : Packet) (after : Receiver) (p : Packet)
        (result : Result)
        → length (b ∷ chunk) ≤ packet_size
        → w.deserialize t.receiver
            ((b ∷ chunk) ++ drop (length (b ∷ chunk)) (w.buffer t))
            (length (b ∷ chunk))
            old
          ≡ some (after, p, result)
        → read_packet w (b ∷ chunk) old t
          ≡ some (result, p, record (emit (read (b ∷ chunk)) t) { receiver = after })
    unfolding read_packet read_serial
    read_packet_call t b chunk old after p result fits call =
        let size = buffers t in
        rw
          (
            le→leb (length (b ∷ chunk)) packet_size fits,
            ne→eq_false (length (b ∷ chunk)) 0 (omega arith),
            overwrite_front (w.buffer t) (b ∷ chunk) (omega arith),
            call,
          )
          refl

    -- A turn that finds bytes, by what `deserialize` makes of them.
    loop_call :
        (s : Alex Receiver) (b : ℕ) (chunk : List ℕ) (after : Receiver) (p : Packet)
        (result : Result)
        → length (b ∷ chunk) ≤ packet_size
        → w.deserialize
            (checked s).receiver
            ((b ∷ chunk) ++ drop (length (b ∷ chunk)) (w.buffer (checked s)))
            (length (b ∷ chunk))
            (w.packet (checked s))
          ≡ some (after, p, result)
        → loop w (b ∷ chunk) s
          ≡ answer w result p (record (emit (read (b ∷ chunk)) (checked s)) { receiver = after })
    unfolding loop
    loop_call s b chunk after p result fits call =
        rw (read_packet_call (checked s) b chunk (w.packet (checked s)) after p result fits call)
          refl

    -- A turn after which more bytes of the packet are to come.
    loop_waits :
        (s : Alex Receiver) (chunk : List ℕ)
        → Valid s.receiver
        → length chunk ≤ packet_size
        → length (waiting s.receiver ++ chunk) < packet_size
        → (s' : Alex Receiver) × (loop w chunk s ≡ some s')
          × Valid s'.receiver
          × (waiting s'.receiver ≡ waiting s.receiver ++ chunk)
    loop_waits s [] v fits short =
        let same = checked-receiver s in
        (
          emit (read []) (checked s),
          loop_idle w s,
          rw same v,
          ap (λ r. waiting r) same ∙ sym (append-nil _),
        )
    loop_waits s (b ∷ chunk) v fits short =
        let same = checked-receiver s in
        let gave =
          framing.waits (checked s).receiver (b ∷ chunk)
            (drop (length (b ∷ chunk)) (w.buffer (checked s))) (w.packet (checked s)) (rw same v)
            (packets (checked s)) (rw same short) fits in
        (
          record (emit (read (b ∷ chunk)) (checked s)) { receiver = gave.after },
          loop_call s b chunk gave.after (w.packet (checked s)) packet_incomplete fits gave.call
              ∙ (unfold answer in refl),
          gave.valid,
          gave.left ∙ ap (λ r. waiting r ++ (b ∷ chunk)) same,
        )

    -- The turn that reads the last bytes of a packet handles it.
    loop_delivers :
        (s : Alex Receiver) (b : ℕ) (chunk : List ℕ) (slot : Comms) (p : Packet)
        → Valid s.receiver
        → length (b ∷ chunk) ≤ packet_size
        → IsComms slot
        → IsPacket p
        → waiting s.receiver ++ (b ∷ chunk) ≡ frame slot (packet_bytes p)
        → (t : Alex Receiver) × (loop w (b ∷ chunk) s ≡ handle_packet w p t)
          × Valid t.receiver
          × (waiting t.receiver ≡ [])
    loop_delivers s b chunk slot p v fits slot_shape shape e =
        let same = checked-receiver s in
        let gave =
          framing.delivers (checked s).receiver (b ∷ chunk)
            (drop (length (b ∷ chunk)) (w.buffer (checked s))) (w.packet (checked s)) p slot
            (rw same v) (packets (checked s)) shape slot_shape fits (rw same e) in
        (
          record (emit (read (b ∷ chunk)) (checked s)) { receiver = gave.after },
          loop_call s b chunk gave.after p packet_ok fits gave.call ∙ (unfold answer in refl),
          gave.valid,
          gave.left,
        )

    -- The packets that the firmware is given when its turns find a frame piece by piece: the last
    -- turn handles the packet that was sent, and no byte is left waiting.
    pub turns-handles :
        (before : List (List ℕ)) (b : ℕ) (last : List ℕ) (s : Alex Receiver) (slot : Comms)
        (p : Packet)
        → Valid s.receiver
        → All (λ c. length c ≤ packet_size) before
        → length (b ∷ last) ≤ packet_size
        → IsComms slot
        → IsPacket p
        → waiting s.receiver ++ (joined before ++ (b ∷ last)) ≡ frame slot (packet_bytes p)
        → (t : Alex Receiver) × (turns (before ++ ((b ∷ last) ∷ [])) s ≡ handle_packet w p t)
          × Valid t.receiver
          × (waiting t.receiver ≡ [])
    unfolding turns
    turns-handles [] b last s slot p v pieces fits slot_shape shape e =
        let (t, run, valid, empty) = loop_delivers s b last slot p v fits slot_shape shape e in
        (t, ap (λ m. m >>= some) run ∙ bind_some (handle_packet w p t), valid, empty)
    turns-handles (c ∷ cs) b last s slot p v pieces fits slot_shape shape e =
        let sent =
          length-frame (record { slot = slot; structure = packet_bytes p })
            (slot_shape, length-packet_bytes p shape) in
        let front = waiting s.receiver ++ c in
        let back = joined cs ++ (b ∷ last) in
        let e' : front ++ back ≡ frame slot (packet_bytes p) =
          append_assoc (waiting s.receiver) c back
          ∙ ap (λ q. waiting s.receiver ++ q) (sym (append_assoc c (joined cs) (b ∷ last)))
          ∙ e in
        let size : length (front ++ back) ≡ packet_size = ap length e' ∙ sent in
        let (s1, run1, v1, waits1) =
          loop_waits s c v pieces.0
            (omega (arith, size, length-append front back, length-append (joined cs) (b ∷ last))) in
        let (t, run, valid, empty) =
          turns-handles cs b last s1 slot p v1 pieces.1 fits slot_shape shape
            (ap (λ q. q ++ back) waits1 ∙ e') in
        (t, rw run1 run, valid, empty)
