-- ===== src/Alex/Ranges.antt =====
-- The handlers and the loop of the firmware (alex/usart.ino, alex/alex.ino) keep the globals in the
-- ranges of their types.
use cg2111a_b.Base.{
  Option, none, some, ◌>>=◌, ℕ, ◌≡◌, arith, some, none, List, Ensures, Ensures-if, Ensures->>=,
  Ensures-at, length, leb, if◌then◌else◌, ◌==◌, ltb, if-holds,
}
use cg2111a_b.Memory.{overwrite}
use cg2111a_b.Alex.Typed.{
  IsWord, IsTyped, extension_bound, clear_counters-IsTyped, stop-IsTyped, forward-IsTyped,
  left-IsTyped, backward-IsTyped, right-IsTyped, avoid_collision-IsTyped, check_distance-IsTyped,
  check_turn-IsTyped, sent-IsTyped, ok-IsTyped, find_color-IsTyped,
}
use cg2111a_b.Alex.{read, Alex, World, emit}
use cg2111a_b.Alex.Replies.{
  send_status, send_bad_command, send_bad_packet, send_bad_checksum, send_ok,
}
use cg2111a_b.Alex.Sensors.{
  get_ultrasonic_distance, find_color, extension, extend, extended, distance_forward,
  distance_reverse, retract, send_color, current_dist, color_packet, send_distance,
  distance_to_stop,
}
use cg2111a_b.Serialize.{
  packet_size, Result, packet_ok, packet_bad, packet_checksum_bad, packet_incomplete,
  packet_complete,
}
use cg2111a_b.Alex.Commands.{
  Case, move_forward, move_reverse, turn_left, turn_right, halt, get_stats, clear_stats, color,
  dist, unknown, case_of, run_common, run_param, run_keyboard, run_time, handle_command_param,
  handle_command_keyboard, handle_command_time, handle_packet,
}
use cg2111a_b.Alex.Main.{
  answer, read_packet, read_serial, loop, avoid_collision, check_distance, check_turn,
}
use cg2111a_b.Packet.{Packet}

module _ (w : World) (words : (x : w.Float) → IsWord (w.word_of x)) where
  open w use {Float}
  open w use {Receiver}

  extend-IsTyped : (n : ℕ) (s : Alex Receiver) → IsTyped s → IsTyped (extend w n s)
  unfolding extend distance_forward
  extend-IsTyped n s h =
      let k = extension_bound n in
      if-holds IsTyped (ltb distance_to_stop n) (extended w (extension n) s) s (λ e. ground arith)
        (λ e. h)

  retract-IsTyped : (s : Alex Receiver) → IsTyped s → IsTyped (retract w s)
  unfolding retract distance_reverse
  retract-IsTyped s h = ground arith

  send_color-IsTyped : (s : Alex Receiver) → IsTyped s → Ensures IsTyped (send_color w s)
  unfolding send_color get_ultrasonic_distance
  send_color-IsTyped s h =
      let (d, s1) = get_ultrasonic_distance w s in
      Ensures->>= IsTyped IsTyped (find_color w (extend w (current_dist d) s1)) _
        (find_color-IsTyped w words (extend w (current_dist d) s1)
          (extend-IsTyped (current_dist d) s1 h))
        (λ s2 k. retract-IsTyped _ (sent-IsTyped w words (color_packet w s2) s2 k))

  run_common-IsTyped :
      (c : Case) (s : Alex Receiver) → IsTyped s → Ensures IsTyped (run_common w c s)
  unfolding run_common send_distance send_status send_bad_command get_ultrasonic_distance
  run_common-IsTyped halt s h = stop-IsTyped w words (send_ok w s) (ok-IsTyped w words s h)
  run_common-IsTyped get_stats s h = sent-IsTyped w words _ (send_ok w s) (ok-IsTyped w words s h)
  run_common-IsTyped clear_stats s h = clear_counters-IsTyped (send_ok w s) (ok-IsTyped w words s h)
  run_common-IsTyped color s h =
      Ensures->>= IsTyped IsTyped (send_color w s) _ (send_color-IsTyped s h)
        (λ s' k. ok-IsTyped w words s' k)
  run_common-IsTyped dist s h = ok-IsTyped w words _ (sent-IsTyped w words _ _ h)
  run_common-IsTyped move_forward s h = sent-IsTyped w words _ s h
  run_common-IsTyped move_reverse s h = sent-IsTyped w words _ s h
  run_common-IsTyped turn_left s h = sent-IsTyped w words _ s h
  run_common-IsTyped turn_right s h = sent-IsTyped w words _ s h
  run_common-IsTyped unknown s h = sent-IsTyped w words _ s h

  run_param-IsTyped :
      (c : Case) (p : Packet) (s : Alex Receiver) → IsTyped s → Ensures IsTyped (run_param w c p s)
  unfolding run_param
  run_param-IsTyped move_forward p s h =
      forward-IsTyped w words _ _ (send_ok w s) (ok-IsTyped w words s h)
  run_param-IsTyped move_reverse p s h =
      backward-IsTyped w words _ _ (send_ok w s) (ok-IsTyped w words s h)
  run_param-IsTyped turn_left p s h =
      left-IsTyped w words _ _ (send_ok w s) (ok-IsTyped w words s h)
  run_param-IsTyped turn_right p s h =
      right-IsTyped w words _ _ (send_ok w s) (ok-IsTyped w words s h)
  run_param-IsTyped halt p s h = run_common-IsTyped halt s h
  run_param-IsTyped get_stats p s h = run_common-IsTyped get_stats s h
  run_param-IsTyped clear_stats p s h = run_common-IsTyped clear_stats s h
  run_param-IsTyped color p s h = run_common-IsTyped color s h
  run_param-IsTyped dist p s h = run_common-IsTyped dist s h
  run_param-IsTyped unknown p s h = run_common-IsTyped unknown s h

  run_keyboard-IsTyped :
      (c : Case) (p : Packet) (s : Alex Receiver)
      → IsTyped s
      → Ensures IsTyped (run_keyboard w c p s)
  unfolding run_keyboard
  run_keyboard-IsTyped move_forward p s h =
      forward-IsTyped w words _ _ (send_ok w s) (ok-IsTyped w words s h)
  run_keyboard-IsTyped move_reverse p s h =
      backward-IsTyped w words _ _ (send_ok w s) (ok-IsTyped w words s h)
  run_keyboard-IsTyped turn_left p s h =
      left-IsTyped w words _ _ (send_ok w s) (ok-IsTyped w words s h)
  run_keyboard-IsTyped turn_right p s h =
      right-IsTyped w words _ _ (send_ok w s) (ok-IsTyped w words s h)
  run_keyboard-IsTyped halt p s h = run_common-IsTyped halt s h
  run_keyboard-IsTyped get_stats p s h = run_common-IsTyped get_stats s h
  run_keyboard-IsTyped clear_stats p s h = run_common-IsTyped clear_stats s h
  run_keyboard-IsTyped color p s h = run_common-IsTyped color s h
  run_keyboard-IsTyped dist p s h = run_common-IsTyped dist s h
  run_keyboard-IsTyped unknown p s h = run_common-IsTyped unknown s h

  run_time-IsTyped :
      (c : Case) (p : Packet) (s : Alex Receiver) → IsTyped s → Ensures IsTyped (run_time w c p s)
  unfolding run_time
  run_time-IsTyped move_forward p s h =
      stop-IsTyped w words _ (forward-IsTyped w words _ _ (send_ok w s) (ok-IsTyped w words s h))
  run_time-IsTyped move_reverse p s h =
      stop-IsTyped w words _ (backward-IsTyped w words _ _ (send_ok w s) (ok-IsTyped w words s h))
  run_time-IsTyped turn_left p s h =
      stop-IsTyped w words _ (left-IsTyped w words _ _ (send_ok w s) (ok-IsTyped w words s h))
  run_time-IsTyped turn_right p s h =
      stop-IsTyped w words _ (right-IsTyped w words _ _ (send_ok w s) (ok-IsTyped w words s h))
  run_time-IsTyped halt p s h = run_common-IsTyped halt s h
  run_time-IsTyped get_stats p s h = run_common-IsTyped get_stats s h
  run_time-IsTyped clear_stats p s h = run_common-IsTyped clear_stats s h
  run_time-IsTyped color p s h = run_common-IsTyped color s h
  run_time-IsTyped dist p s h = run_common-IsTyped dist s h
  run_time-IsTyped unknown p s h = run_common-IsTyped unknown s h

  handle_packet-IsTyped :
      (p : Packet) (s : Alex Receiver) → IsTyped s → Ensures IsTyped (handle_packet w p s)
  unfolding handle_packet handle_command_param handle_command_keyboard handle_command_time
  handle_packet-IsTyped p s h =
      let kind = p.packet_type in
      let case = case_of p.command in
      let Kept = Ensures {A = Alex Receiver} IsTyped in
      if-holds Kept (kind == 0) (run_param w case p s)
        (if kind == 1
          then run_keyboard w case p s
          else (if kind == 2 then run_time w case p s else some s))
        (λ e. run_param-IsTyped case p s h)
        (λ e.
          if-holds Kept (kind == 1) (run_keyboard w case p s)
            (if kind == 2 then run_time w case p s else some s)
            (λ k. run_keyboard-IsTyped case p s h)
            (λ k.
              if-holds Kept (kind == 2) (run_time w case p s) (some s)
                (λ k2. run_time-IsTyped case p s h) (λ k2. h)))

  answer-IsTyped :
      (r : Result) (p : Packet) (s : Alex Receiver) → IsTyped s → Ensures IsTyped (answer w r p s)
  unfolding answer send_bad_packet send_bad_checksum
  answer-IsTyped packet_ok p s h = handle_packet-IsTyped p s h
  answer-IsTyped packet_bad p s h = sent-IsTyped w words _ s h
  answer-IsTyped packet_checksum_bad p s h = sent-IsTyped w words _ s h
  answer-IsTyped packet_incomplete p s h = h
  answer-IsTyped packet_complete p s h = h

  called-IsTyped :
      (called : Option (Receiver × Packet × Result)) (s : Alex Receiver)
      → IsTyped s
      → Ensures
          (λ (r : Result × Packet × Alex Receiver). IsTyped r.2)
          (called >>= λ (r : Receiver × Packet × Result).
            some (r.2, r.1, record s { receiver = r.0 }))
  called-IsTyped none s h = tt
  called-IsTyped (some r) s h = h

  pub read_packet-IsTyped :
      (available : List ℕ) (old : Packet) (s : Alex Receiver)
      → IsTyped s
      → Ensures
          (λ (r : Result × Packet × Alex Receiver). IsTyped r.2)
          (read_packet w available old s)
  unfolding read_packet read_serial
  read_packet-IsTyped available old s h =
      let Kept = λ (r : Result × Packet × Alex Receiver). IsTyped r.2 in
      Ensures->>= (λ (r : List ℕ × Alex Receiver). IsTyped r.1) Kept
        (read_serial w available (w.buffer s) s) _
        (Ensures-if (λ (r : List ℕ × Alex Receiver). IsTyped r.1)
          (leb (length available) packet_size)
          (some (overwrite (w.buffer s) available, emit (read available) s)) none h tt)
        (λ r k.
          Ensures-if Kept (length available == 0) (some (packet_incomplete, old, r.1)) _ k
            (called-IsTyped (w.deserialize r.1.receiver r.0 (length available) old) r.1 k))

  -- Between two turns of `loop`, whatever bytes they find and whatever interrupts come between
  -- them, every global is in the range of its type.
  pub loop-IsTyped :
      (available : List ℕ) (s s' : Alex Receiver)
      → IsTyped s
      → loop w available s ≡ some s'
      → IsTyped s'
  unfolding loop
  loop-IsTyped available s s' h run =
      let checked = check_turn w (check_distance w (avoid_collision w s)) in
      let k =
        check_turn-IsTyped w words _
          (check_distance-IsTyped w words _ (avoid_collision-IsTyped w words s h)) in
      Ensures-at IsTyped (loop w available s) s' run (
        Ensures->>= (λ (r : Result × Packet × Alex Receiver). IsTyped r.2) IsTyped
          (read_packet w available (w.packet checked) checked) _
          (read_packet-IsTyped available (w.packet checked) checked k)
          (λ r m. answer-IsTyped r.0 r.1 r.2 m))
