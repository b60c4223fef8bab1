-- ===== src/Alex/Turning.antt =====
-- A turn by an amount does not end early (alex/robotlib.ino, alex/alex.ino).
use cg2111a_b.Base.{
  and_false, ℕ, ◌+◌, ◌%◌, ◌^◌, ◌<◌, ◌≡◌, refl, ap, ◌∙◌, arith, false, List, [], ◌∷◌, some, ◌==◌,
  ltb, lt→leb_false, if-skips, Option,
}
use native.Mathlib.Nat.{zero-add}
use cg2111a_b.Base.Int.{ℤ}
use cg2111a_b.Alex.{Alex, World, Motor, front_left, front_right, back_left, back_right, emit, read}
use cg2111a_b.Alex.Motion.{
  left, right, ccw, cw, move, run_motors, set_speeds, speed_scaled, ticks_to_go,
}
use cg2111a_b.Alex.Encoders.{left_isr, right_isr}
use cg2111a_b.Alex.Main.{check_distance, check_turn, end_distance, end_turn}
use cg2111a_b.Alex.Happenings.{
  Happening, left_tick, right_tick, idle, happen, run_all, last_speed, distance_done, turn_done,
  check_distance_lem, check_turn_lem, loop_idle,
}
use cg2111a_b.Alex.Halting.{turned}
use cg2111a_b.Alex.Going.{
  Way, going_left, going_right, counted, count, count-counted, Going, left_tick-Going,
  right_tick-Going, isr_leftwards, isr_rightwards, equal, other,
}
use cg2111a_b.Alex.Losing.{avoids_nothing, dir_of}
use cg2111a_b.Alex.Starting.{start}

near : (a b c : ℕ) → b < c → a + b < a + c
near a b c h = omega arith

-- The two turns.
pub data Side : Type 0 where
  to_left to_right : Side

abbrev pub way_of : Side → Way
way_of to_left = going_left
way_of to_right = going_right

-- The counter that a turn is measured by.
abbrev pub turns_of : {R : Type 0} → Side → Alex R → ℕ
turns_of to_left s = s.left_reverse_turns
turns_of to_right s = s.right_reverse_turns

module _ (w : World) where
  open w use {Float}
  open w use {Receiver}

  -- On the way, not watching for obstacles, its motors at speeds that they were given.
  abbrev Turning : Side → (Motor → Option ℤ) → ℕ → ℕ → ℕ → Alex Receiver → Type 0
  Turning side speeds limit base n s =
      Going w (way_of side) limit base n s
      × (s.prevent_collision ≡ false)
      × ((m : Motor) → last_speed m s.calls ≡ speeds m)

  left_tick-Turning :
      (side : Side) (speeds : Motor → Option ℤ) (limit base n : ℕ) (s : Alex Receiver)
      → Turning side speeds limit base n s
      → Turning side speeds limit base (count (way_of side) left_tick n) (left_isr w s)
  left_tick-Turning to_left speeds limit base n s (going, kept, same) =
      let e = (isr_leftwards w s going.0).0 in
      (left_tick-Going w going_left limit base n s going, rw e kept, rw e same)
  left_tick-Turning to_right speeds limit base n s (going, kept, same) =
      let e = (isr_rightwards w s going.0).0 in
      (left_tick-Going w going_right limit base n s going, rw e kept, rw e same)

  right_tick-Turning :
      (side : Side) (speeds : Motor → Option ℤ) (limit base n : ℕ) (s : Alex Receiver)
      → Turning side speeds limit base n s
      → Turning side speeds limit base (count (way_of side) right_tick n) (right_isr s)
  right_tick-Turning to_left speeds limit base n s (going, kept, same) =
      let e = (isr_leftwards w s going.0).1 in
      (right_tick-Going w going_left limit base n s going, rw e kept, rw e same)
  right_tick-Turning to_right speeds limit base n s (going, kept, same) =
      let e = (isr_rightwards w s going.0).1 in
      (right_tick-Going w going_right limit base n s going, rw e kept, rw e same)

  far_from_done :
      (s : Alex Receiver) (k : ℕ)
      → s.dir ≡ k
      → (k == 0) ≡ false
      → (k == 1) ≡ false
      → (k == 2) ≡ false
      → check_distance w s ≡ s
  far_from_done s k e not0 not1 not2 =
      check_distance_lem w s
      ∙ if-skips (λ t. t ≡ s) (distance_done s) (end_distance w s) s
          (rw (other s.dir k 1 e not1, other s.dir k 2 e not2, other s.dir k 0 e not0)
            (and_false (ltb 0 s.delta_dist)))
          refl

  undone :
      (side : Side) (speeds : Motor → Option ℤ) (limit base n : ℕ) (s : Alex Receiver)
      → Turning side speeds limit base n s
      → (base + n) % 2 ^ 32 < limit
      → check_turn w (check_distance w s) ≡ s
  undone to_left speeds limit base n s ((dir, some_way, target, ticks), kept, same) near =
      let early = lt→leb_false s.target_ticks s.left_reverse_turns (rw (target, ticks) near) in
      ap (λ t. check_turn w t) (far_from_done s 3 dir refl refl refl)
      ∙ check_turn_lem w s
      ∙ if-skips (λ t. t ≡ s) (turn_done s) (end_turn w s) s
          (rw (equal s.dir 3 dir, early) (and_false (ltb 0 s.delta_ticks))) refl
  undone to_right speeds limit base n s ((dir, some_way, target, ticks), kept, same) near =
      let early = lt→leb_false s.target_ticks s.right_reverse_turns (rw (target, ticks) near) in
      ap (λ t. check_turn w t) (far_from_done s 4 dir refl refl refl)
      ∙ check_turn_lem w s
      ∙ if-skips (λ t. t ≡ s) (turn_done s) (end_turn w s) s
          (rw (other s.dir 4 3 dir refl, equal s.dir 4 dir, early)
            (and_false (ltb 0 s.delta_ticks)))
          refl

  turned_on :
      (side : Side) (speeds : Motor → Option ℤ) (limit base n : ℕ) (s : Alex Receiver)
      → Turning side speeds limit base n s
      → (base + n) % 2 ^ 32 < limit
      → turned w s ≡ emit (read []) s
  turned_on side speeds limit base n s h near =
      ap (λ t. emit (read []) (check_turn w (check_distance w t))) (avoids_nothing w s h.1)
      ∙ ap (λ t. emit (read []) t) (undone side speeds limit base n s h near)

  count_idle : (side : Side) (n : ℕ) → count (way_of side) idle n ≡ n
  count_idle to_left n = refl
  count_idle to_right n = refl

  idle-Turning :
      (side : Side) (speeds : Motor → Option ℤ) (limit base n : ℕ) (s : Alex Receiver)
      → Turning side speeds limit base n s
      → Turning side speeds limit base n (emit (read []) s)
  idle-Turning to_left speeds limit base n s h = h
  idle-Turning to_right speeds limit base n s h = h

  happen-Turning :
      (side : Side) (speeds : Motor → Option ℤ) (limit base n : ℕ) (h : Happening)
      (s : Alex Receiver)
      → Turning side speeds limit base n s
      → (base + n) % 2 ^ 32 < limit
      → (s' : Alex Receiver) × (happen w h s ≡ some s')
        × Turning side speeds limit base (count (way_of side) h n) s'
  happen-Turning side speeds limit base n left_tick s k near =
      (left_isr w s, refl, left_tick-Turning side speeds limit base n s k)
  happen-Turning side speeds limit base n right_tick s k near =
      (right_isr s, refl, right_tick-Turning side speeds limit base n s k)
  happen-Turning side speeds limit base n idle s k near = rw (count_idle side n) (
    emit (read []) s,
    loop_idle w s ∙ ap some (turned_on side speeds limit base n s k near),
    idle-Turning side speeds limit base n s k,
  )

  run_all-Turning :
      (side : Side) (speeds : Motor → Option ℤ) (limit base n : ℕ) (hs : List Happening)
      (s : Alex Receiver)
      → Turning side speeds limit base n s
      → base + (n + counted (way_of side) hs) < limit
      → limit < 2 ^ 32
      → (s' : Alex Receiver) × (m : ℕ) × (run_all w hs s ≡ some s')
        × Turning side speeds limit base m s'
  unfolding run_all
  run_all-Turning side speeds limit base n [] s k near fits = (s, n, refl, k)
  run_all-Turning side speeds limit base n (h ∷ hs) s k near fits =
      let (s1, step, k1) = happen-Turning side speeds limit base n h s k (omega arith) in
      let (s2, m, rest, k2) =
        run_all-Turning side speeds limit base (count (way_of side) h n) hs s1 k1
          (rw (count-counted (way_of side) h hs n) near) fits in
      (s2, m, rw step rest, k2)

  some_ticks : (amount : Float) → 0 < ticks_to_go w amount
  some_ticks amount = ground arith

  fits_once : (a b : ℕ) → a + b < 2 ^ 32 → ((a + b) % 2 ^ 32 ≡ a + b) × (a ≡ (a + 0) % 2 ^ 32)
  fits_once a b h = (omega arith, omega arith)

  start_speeds :
      (side : Side) (amount speed : Float) (s : Alex Receiver) (m : Motor)
      → last_speed m (start w (way_of side) amount speed s).calls ≡ some (speed_scaled w speed)
  unfolding left right ccw cw move run_motors set_speeds
  start_speeds to_left amount speed s front_left = refl
  start_speeds to_left amount speed s front_right = refl
  start_speeds to_left amount speed s back_left = refl
  start_speeds to_left amount speed s back_right = refl
  start_speeds to_right amount speed s front_left = refl
  start_speeds to_right amount speed s front_right = refl
  start_speeds to_right amount speed s back_left = refl
  start_speeds to_right amount speed s back_right = refl

  start-Turning :
      (side : Side) (amount speed : Float) (s : Alex Receiver)
      → s.prevent_collision ≡ false
      → turns_of side s + ticks_to_go w amount < 2 ^ 32
      → Turning side
          (λ m. some (speed_scaled w speed))
          (turns_of side s + ticks_to_go w amount)
          (turns_of side s)
          0
          (start w (way_of side) amount speed s)
  unfolding left right ccw cw move run_motors set_speeds
  start-Turning to_left amount speed s kept fits =
      let (target, now) = fits_once _ _ fits in
      ((refl, some_ticks amount, target, now), kept, start_speeds to_left amount speed s)
  start-Turning to_right amount speed s kept fits =
      let (target, now) = fits_once _ _ fits in
      ((refl, some_ticks amount, target, now), kept, start_speeds to_right amount speed s)

  heading :
      (side : Side) (limit base n : ℕ) (s : Alex Receiver)
      → Going w (way_of side) limit base n s
      → s.dir ≡ dir_of (way_of side)
  heading to_left limit base n s h = h.0
  heading to_right limit base n s h = h.0

  -- A turn by an amount, not watching for obstacles and with a sum of its counter and its ticks
  -- that does not wrap around, goes on over any interrupts of the wheels and idle turns of `loop`
  -- in which the wheel that it is measured by ticks fewer times than the amount asks for: no turn
  -- of `loop` faults, the rover still has the direction of the turn, and every motor still has the
  -- speed that the turn was given.
  pub run_all-turns :
      (side : Side) (amount speed : Float) (s : Alex Receiver) (hs : List Happening)
      → s.prevent_collision ≡ false
      → turns_of side s + ticks_to_go w amount < 2 ^ 32
      → counted (way_of side) hs < ticks_to_go w amount
      → (s' : Alex Receiver) × (run_all w hs (start w (way_of side) amount speed s) ≡ some s')
        × (s'.dir ≡ dir_of (way_of side))
        × ((m : Motor) → last_speed m s'.calls ≡ some (speed_scaled w speed))
  run_all-turns side amount speed s hs kept fits few =
      let limit = turns_of side s + ticks_to_go w amount in
      let (s', n, run, (going, kept', speeds)) =
        run_all-Turning side (λ m. some (speed_scaled w speed)) limit (turns_of side s) 0 hs
          (start w (way_of side) amount speed s) (start-Turning side amount speed s kept fits)
          (rw zero-add (near _ _ _ few)) fits in
      (s', run, heading side limit (turns_of side s) n s' going, speeds)
