-- ===== src/Alex/Motion.antt =====
-- The motors: alex/robotlib.ino.
use cg2111a_b.Base.{ℕ, ◌+◌, ◌%◌, ◌^◌, true, false, if◌then◌else◌, ltb, ◌==◌}
use cg2111a_b.Base.Int.{ℤ, pos}
use cg2111a_b.Alex.{
  Alex, World, front_left, front_right, back_left, back_right, set_speed, run, emit, stopped,
  forwards, backwards, leftwards, rightwards,
}

abbrev counts_per_rev : ℤ
counts_per_rev = pos 4

module _ {R : Type 0} where
  unfoldable pub set_speeds : ℤ → Alex R → Alex R
  set_speeds speed s = emit (set_speed back_right speed) (
      emit (set_speed back_left speed)
        (emit (set_speed front_right speed) (emit (set_speed front_left speed) s)))

  abbrev run_each : ℕ → ℕ → ℕ → ℕ → Alex R → Alex R
  run_each fl fr bl br s =
      emit (run back_right br)
        (emit (run back_left bl) (emit (run front_right fr) (emit (run front_left fl) s)))

  -- The `switch` of `move`.
  unfoldable pub run_motors : ℕ → Alex R → Alex R
  run_motors direction s =
      if direction == backwards
      then run_each backwards backwards forwards forwards s
      else (if direction == forwards
          then run_each forwards forwards backwards backwards s
          else (if direction == leftwards
              then run_each backwards forwards forwards backwards s
              else (if direction == rightwards
                  then run_each forwards backwards backwards forwards s
                  else (if direction == stopped
                      then run_each stopped stopped stopped stopped s
                      else s))))

module _ (w : World) where
  open w use {Float}
  open w use {Receiver}

  abbrev pub speed_scaled : Float → ℤ
  speed_scaled speed = w.int_of (w.times (w.divide speed (w.literal "100.0")) (w.of_int (pos 255)))

  unfoldable pub move : Float → ℕ → Alex Receiver → Alex Receiver
  move speed direction s = run_motors direction (set_speeds (speed_scaled speed) s)

  -- The first half of `forward` and of `backward`.
  abbrev pub distance_to_go : Float → ℕ
  distance_to_go dist = if w.ltb_float (w.of_int (pos 0)) dist then w.word_of dist else 9999999

  unfoldable pub forward : Float → Float → Alex Receiver → Alex Receiver
  forward dist speed s =
      let delta = distance_to_go dist in
      let set = record s {
        delta_dist = delta;
        new_dist = (s.forward_dist + delta) % 2 ^ 32;
        dir = forwards;
      } in
      record (move speed forwards set) { prevent_collision = true }

  unfoldable pub backward : Float → Float → Alex Receiver → Alex Receiver
  backward dist speed s =
      let delta = distance_to_go dist in
      move speed backwards (record s {
        delta_dist = delta;
        new_dist = (s.reverse_dist + delta) % 2 ^ 32;
        dir = backwards;
      })

  abbrev alex_diagonal : Float
  alex_diagonal =
      w.sqrt (w.plus (w.of_int (pos 144)) (w.times (w.literal "13.5") (w.literal "13.5")))

  abbrev alex_circ : Float
  alex_circ = w.times (w.literal "3.141592654") alex_diagonal

  abbrev pub compute_delta_ticks : Float → ℕ
  compute_delta_ticks ang =
      let turned = w.times (w.times ang alex_circ) (w.of_int counts_per_rev) in
      let ticks = w.word_of (w.divide turned (w.times (w.literal "360.0") (w.literal "20.73"))) in
      if ltb ticks 1 then 1 else ticks

  unfoldable pub ccw : Float → Float → Alex Receiver → Alex Receiver
  ccw dist speed s = move speed leftwards (record s { dir = leftwards })

  unfoldable pub cw : Float → Float → Alex Receiver → Alex Receiver
  cw dist speed s = move speed rightwards (record s { dir = rightwards })

  -- The first half of `left` and of `right`.
  abbrev pub ticks_to_go : Float → ℕ
  ticks_to_go ang = if w.ltb_float ang (w.of_int (pos 0)) then 99999999 else compute_delta_ticks ang

  unfoldable pub left : Float → Float → Alex Receiver → Alex Receiver
  left ang speed s =
      let delta = ticks_to_go ang in
      ccw ang speed
        (record s { delta_ticks = delta; target_ticks = (s.left_reverse_turns + delta) % 2 ^ 32 })

  unfoldable pub right : Float → Float → Alex Receiver → Alex Receiver
  right ang speed s =
      let delta = ticks_to_go ang in
      cw ang speed
        (record s { delta_ticks = delta; target_ticks = (s.right_reverse_turns + delta) % 2 ^ 32 })

  unfoldable pub stop : Alex Receiver → Alex Receiver
  stop s =
      let set = record s { dir = stopped; delta_dist = 0; delta_ticks = 0 } in
      record (move (w.of_int (pos 0)) stopped set) { prevent_collision = false }
