-- ===== src/Alex/Typed.antt =====
-- The globals of the firmware stay in the ranges of their types (alex/*.ino): the counters are
-- words of 32 bits, the direction is one of the five, and the actuator is at most 7 cm out.
use cg2111a_b.Base.{
  ℕ, ◌^◌, ◌≤◌, ◌<◌, arith, zero, suc, none, true, false, Ensures, Ensures-if, Ensures->>=,
  if◌then◌else◌, ltb, if-holds,
}
use cg2111a_b.Alex.{Alex, World, emit, delay, pulse_in}
use cg2111a_b.Alex.Replies.{send_response, send_message, send_ok}
use cg2111a_b.Alex.Sensors.{
  get_ultrasonic_distance, sensor_out, to_int, is_int, add_readings, average_freq, find_color,
  extension, filter, settled,
}
use cg2111a_b.Alex.Main.{
  is_near, auto_stopped, avoid_collision, check_distance, check_turn, end_distance, end_turn,
}
use cg2111a_b.Alex.Happenings.{distance_done, turn_done, check_distance_lem, check_turn_lem}
use cg2111a_b.Base.Int.{ℤ, pos, ◌+ℤ◌, to_word}
use cg2111a_b.Packet.{Packet}
use cg2111a_b.Pi.Params.{to_word-lt}
use cg2111a_b.Alex.Motion.{
  forward, backward, left, right, ccw, cw, stop, move, run_motors, set_speeds, distance_to_go,
  ticks_to_go, compute_delta_ticks,
}
use cg2111a_b.Alex.Encoders.{next, left_isr, right_isr, clear_counters}

abbrev pub IsWord : ℕ → Type 0
IsWord n = n < 2 ^ 32

abbrev pub IsTyped : {R : Type 0} → Alex R → Type 0
IsTyped s =
    (s.dir ≤ 4)
    × (s.linearactuatordist ≤ 7)
    × (IsWord s.red_freq × IsWord s.green_freq × IsWord s.blue_freq)
    × (IsWord s.left_forward_ticks
        × IsWord s.right_forward_ticks
        × IsWord s.left_reverse_ticks
        × IsWord s.right_reverse_ticks)
    × (IsWord s.left_forward_turns
        × IsWord s.right_forward_turns
        × IsWord s.left_reverse_turns
        × IsWord s.right_reverse_turns)
    × (IsWord s.forward_dist × IsWord s.reverse_dist × IsWord s.delta_dist × IsWord s.new_dist)
    × (IsWord s.delta_ticks × IsWord s.target_ticks)

next-IsWord : (n : ℕ) → IsWord (next n)
next-IsWord n = omega arith

at_least : (n : ℕ) → IsWord n → IsWord (if ltb n 1 then 1 else n)
at_least n h = ground arith

pub extension_bound : (n : ℕ) → extension n ≤ 7
extension_bound n = ground arith

module _ {R : Type 0} where
  pub clear_counters-IsTyped : (s : Alex R) → IsTyped s → IsTyped (clear_counters s)
  unfolding clear_counters
  clear_counters-IsTyped s h = ground arith

  pub right_isr-IsTyped : (s : Alex R) → IsTyped s → IsTyped (right_isr s)
  unfolding right_isr
  right_isr-IsTyped s h = ground arith

module _ (w : World) (words : (x : w.Float) → IsWord (w.word_of x)) where
  open w use {Float}
  open w use {Receiver}

  pub left_isr-IsTyped : (s : Alex Receiver) → IsTyped s → IsTyped (left_isr w s)
  unfolding left_isr
  left_isr-IsTyped s h =
      let f = words (
        w.times (w.divide (w.of_word (next s.left_forward_ticks)) (w.of_int (pos 4)))
          (w.literal "20.73")) in
      let b = words (
        w.times (w.divide (w.of_word (next s.left_reverse_ticks)) (w.of_int (pos 4)))
          (w.literal "20.73")) in
      ground arith

  pub distance-IsWord : (d : Float) → IsWord (distance_to_go w d)
  distance-IsWord d =
      if-holds IsWord (w.ltb_float (w.of_int (pos 0)) d) (w.word_of d) 9999999 (λ e. words d)
        (λ e. omega arith)

  pub ticks-IsWord : (ang : Float) → IsWord (ticks_to_go w ang)
  ticks-IsWord ang =
      if-holds IsWord (w.ltb_float ang (w.of_int (pos 0))) 99999999 (compute_delta_ticks w ang)
        (λ e. omega arith) (λ e. at_least (w.word_of _) (words _))

  pub stop-IsTyped : (s : Alex Receiver) → IsTyped s → IsTyped (stop w s)
  unfolding stop move run_motors set_speeds
  stop-IsTyped s h = ground arith

  pub forward-IsTyped : (d v : Float) (s : Alex Receiver) → IsTyped s → IsTyped (forward w d v s)
  unfolding forward move run_motors set_speeds
  forward-IsTyped d v s h = let k = distance-IsWord d in ground arith

  pub left-IsTyped : (d v : Float) (s : Alex Receiver) → IsTyped s → IsTyped (left w d v s)
  unfolding left ccw move run_motors set_speeds
  left-IsTyped d v s h = let k = ticks-IsWord d in ground arith

  pub backward-IsTyped : (d v : Float) (s : Alex Receiver) → IsTyped s → IsTyped (backward w d v s)
  unfolding backward move run_motors set_speeds
  backward-IsTyped d v s h = let k = distance-IsWord d in ground arith

  pub right-IsTyped : (d v : Float) (s : Alex Receiver) → IsTyped s → IsTyped (right w d v s)
  unfolding right cw move run_motors set_speeds
  right-IsTyped d v s h = let k = ticks-IsWord d in ground arith

  pub avoid_collision-IsTyped : (s : Alex Receiver) → IsTyped s → IsTyped (avoid_collision w s)
  unfolding avoid_collision get_ultrasonic_distance send_message send_response
  avoid_collision-IsTyped s h =
      let (d, s') = get_ultrasonic_distance w s in
      if-holds IsTyped s.prevent_collision
        (if is_near d then send_message w auto_stopped (stop w s') else s') s
        (λ e.
          if-holds IsTyped (is_near d) (send_message w auto_stopped (stop w s')) s'
            (λ k. stop-IsTyped s' h) (λ k. h))
        (λ e. h)

  pub check_distance-IsTyped : (s : Alex Receiver) → IsTyped s → IsTyped (check_distance w s)
  check_distance-IsTyped s h = rw (check_distance_lem w s) (
      if-holds IsTyped (distance_done s) (end_distance w s) s
        (λ e. stop-IsTyped (record s { delta_dist = 0; new_dist = 0 }) (ground arith)) (λ e. h))

  pub check_turn-IsTyped : (s : Alex Receiver) → IsTyped s → IsTyped (check_turn w s)
  check_turn-IsTyped s h = rw (check_turn_lem w s) (
      if-holds IsTyped (turn_done s) (end_turn w s) s
        (λ e. stop-IsTyped (record s { delta_ticks = 0; target_ticks = 0 }) (ground arith))
        (λ e. h))

  pub sent-IsTyped : (p : Packet) (s : Alex Receiver) → IsTyped s → IsTyped (send_response w p s)
  unfolding send_response
  sent-IsTyped p s h = h

  pub ok-IsTyped : (s : Alex Receiver) → IsTyped s → IsTyped (send_ok w s)
  unfolding send_ok
  ok-IsTyped s h = sent-IsTyped _ s h

  pub add_readings-IsTyped :
      (left : ℕ) (total : ℤ) (s : Alex Receiver)
      → IsTyped s
      → Ensures (λ (r : ℤ × Alex Receiver). IsTyped r.1) (add_readings w left total s)
  unfolding add_readings
  add_readings-IsTyped zero total s h = h
  add_readings-IsTyped (suc left) total s h =
      Ensures-if (λ (r : ℤ × Alex Receiver). IsTyped r.1)
        (is_int (total +ℤ to_int (w.pulse s sensor_out))) _ none
        (add_readings-IsTyped left (total +ℤ to_int (w.pulse s sensor_out))
          (emit (delay 20) (emit (pulse_in sensor_out) s)) h)
        tt

  pub average_freq-IsTyped :
      (s : Alex Receiver)
      → IsTyped s
      → Ensures (λ (r : ℤ × Alex Receiver). IsTyped r.1) (average_freq w s)
  unfolding average_freq
  average_freq-IsTyped s h =
      Ensures->>= (λ (r : ℤ × Alex Receiver). IsTyped r.1) _ (add_readings w 5 (pos 0) s) _
        (add_readings-IsTyped 5 (pos 0) s h) (λ r k. k)

  pub find_color-IsTyped : (s : Alex Receiver) → IsTyped s → Ensures IsTyped (find_color w s)
  unfolding find_color
  find_color-IsTyped s h =
      let Q = λ (r : ℤ × Alex Receiver). IsTyped r.1 in
      Ensures->>= Q IsTyped (average_freq w (filter false false s)) _ (average_freq-IsTyped _ h)
        (λ r k.
          let a = to_word-lt r.0 in
          Ensures->>= Q IsTyped
            (average_freq w (filter true true (settled (record r.1 { red_freq = to_word r.0 })))) _
            (average_freq-IsTyped _ (ground arith))
            (λ r2 k2.
              let a2 = to_word-lt r2.0 in
              Ensures->>= Q IsTyped
                (average_freq w
                  (filter false true (settled (record r2.1 { green_freq = to_word r2.0 }))))
                _ (average_freq-IsTyped _ (ground arith))
                (λ r3 k3. let a3 = to_word-lt r3.0 in ground arith)))
