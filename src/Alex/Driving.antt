-- ===== src/Alex/Driving.antt =====
-- A movement forwards does not end early, and objects that `loop` does not see (alex/alex.ino,
-- alex/robotlib.ino).
use cg2111a_b.Base.{
  ℕ, suc, ◌+◌, ◌%◌, ◌^◌, ◌≤◌, ◌<◌, ◌≡◌, refl, ap, ◌∙◌, arith, false, ◌⊎◌, inl, inr, List, [], ◌∷◌,
  some, ltb, if-skips, if-holds, and_false, Option, if◌then◌else◌,
}
use native.Mathlib.Nat.{zero-add}
use cg2111a_b.Base.Int.{ℤ, pos, negsuc}
use cg2111a_b.Alex.{Alex, World, Motor, front_left, front_right, back_left, back_right, forwards}
use cg2111a_b.Alex.Motion.{forward, move, run_motors, set_speeds, speed_scaled, distance_to_go}
use cg2111a_b.Alex.Encoders.{next, travelled, left_isr, right_isr}
use cg2111a_b.Alex.Replies.{send_message}
use cg2111a_b.Alex.Motion.{stop}
use cg2111a_b.Alex.Sensors.{get_ultrasonic_distance}
use cg2111a_b.Alex.Main.{
  is_near, auto_stopped, avoid_collision, check_distance, check_turn, end_distance, end_turn,
}
use cg2111a_b.Alex.Happenings.{
  Happening, left_tick, right_tick, idle, run_all, lefts, last_speed, distance_done, turn_done,
  check_distance_lem, check_turn_lem, loop_idle,
}
use cg2111a_b.Alex.Halting.{turned}
use cg2111a_b.Alex.Going.{isr_forwards, equal, other}

-- The measured distances in centimetres that the check for obstacles lets pass.
abbrev pub IsUnseen : ℤ → Type 0
IsUnseen (pos d) = (d ≤ 10) ⊎ (15 ≤ d)
IsUnseen (negsuc d) = 0 ≤ 0

unseen : (d : ℤ) → IsUnseen d → is_near d ≡ false
unseen (pos d) (inl h) = ground arith
unseen (pos d) (inr h) = ground arith
unseen (negsuc d) h = ground arith

not_yet : (new at : ℕ) → at ≤ new → ltb new at ≡ false
not_yet new at h = ground arith

module _ (w : World) where
  open w use {Float}
  open w use {Receiver}

  -- The sensor, wherever the rover is, measures no distance that stops it.
  abbrev pub SeesNothing : Type 0
  SeesNothing = (s : Alex Receiver) → IsUnseen (get_ultrasonic_distance w s).0

  -- On the way forwards, `n` ticks after the counter was `base`.
  abbrev Driving : (Motor → Option ℤ) → ℕ → ℕ → ℕ → Alex Receiver → Type 0
  Driving speeds limit base n s =
      (s.dir ≡ forwards)
      × (s.new_dist ≡ limit)
      × (s.forward_dist ≤ limit)
      × (s.left_forward_ticks ≡ base + n)
      × ((m : Motor) → last_speed m s.calls ≡ speeds m)

  passes :
      (s : Alex Receiver)
      → SeesNothing
      → (avoid_collision w s ≡ s) ⊎ (avoid_collision w s ≡ (get_ultrasonic_distance w s).1)
  unfolding avoid_collision
  passes s blind =
      let (d, s') = get_ultrasonic_distance w s in
      let far : (if is_near d then send_message w auto_stopped (stop w s') else s') ≡ s' =
        if-skips (λ t. t ≡ s') (is_near d) (send_message w auto_stopped (stop w s')) s'
          (unseen d (blind s)) refl in
      if-holds (λ t. (t ≡ s) ⊎ (t ≡ s')) s.prevent_collision
        (if is_near d then send_message w auto_stopped (stop w s') else s') s (λ e. inr far)
        (λ e. inl refl)

  avoid_collision-Driving :
      (speeds : Motor → Option ℤ) (limit base n : ℕ) (s : Alex Receiver)
      → SeesNothing
      → Driving speeds limit base n s
      → Driving speeds limit base n (avoid_collision w s)
  unfolding get_ultrasonic_distance
  avoid_collision-Driving speeds limit base n s blind h = elim (passes s blind) [
    | inl e ↦ rw e h
    | inr e ↦ rw e h
  ]

  undone :
      (speeds : Motor → Option ℤ) (limit base n : ℕ) (s : Alex Receiver)
      → Driving speeds limit base n s
      → check_turn w (check_distance w s) ≡ s
  undone speeds limit base n s (dir, new, near, ticks, same) =
      let early = not_yet s.new_dist s.forward_dist (rw new near) in
      let e =
        check_distance_lem w s
        ∙ if-skips (λ t. t ≡ s) (distance_done s) (end_distance w s) s
            (rw (equal s.dir 1 dir, early) (and_false (ltb 0 s.delta_dist))) refl in
      ap (λ t. check_turn w t) e
      ∙ check_turn_lem w s
      ∙ if-skips (λ t. t ≡ s) (turn_done s) (end_turn w s) s
          (rw (other s.dir 1 3 dir refl, other s.dir 1 4 dir refl, other s.dir 1 0 dir refl)
            (and_false (ltb 0 s.delta_ticks)))
          refl

  turned-Driving :
      (speeds : Motor → Option ℤ) (limit base n : ℕ) (s : Alex Receiver)
      → SeesNothing
      → Driving speeds limit base n s
      → Driving speeds limit base n (turned w s)
  turned-Driving speeds limit base n s blind h =
      let k = avoid_collision-Driving speeds limit base n s blind h in
      rw (undone speeds limit base n (avoid_collision w s) k) k

  ticked-Driving :
      (speeds : Motor → Option ℤ) (limit base n : ℕ) (s : Alex Receiver)
      → base + suc n < 2 ^ 32
      → travelled w (base + suc n) ≤ limit
      → Driving speeds limit base n s
      → Driving speeds limit base (suc n) (left_isr w s)
  ticked-Driving speeds limit base n s fits near (dir, new, before, ticks, same) =
      let e : next s.left_forward_ticks ≡ base + suc n = rw ticks (omega arith) in
      rw (isr_forwards w s dir).0 (dir, new, rw e near, e, same)

  run_all-Driving :
      (speeds : Motor → Option ℤ) (limit base n all : ℕ) (hs : List Happening) (s : Alex Receiver)
      → SeesNothing
      → ((k : ℕ) → k ≤ all → travelled w (base + k) ≤ limit)
      → n + lefts hs ≤ all
      → base + all < 2 ^ 32
      → Driving speeds limit base n s
      → (s' : Alex Receiver) × (m : ℕ) × (run_all w hs s ≡ some s') × Driving speeds limit base m s'
  unfolding run_all
  run_all-Driving speeds limit base n all [] s blind near few fits h = (s, n, refl, h)
  run_all-Driving speeds limit base n all (left_tick ∷ hs) s blind near few fits h =
      run_all-Driving speeds limit base (suc n) all hs (left_isr w s) blind near (omega arith) fits
        (ticked-Driving speeds limit base n s (omega arith) (near (suc n) (omega arith)) h)
  run_all-Driving speeds limit base n all (right_tick ∷ hs) s blind near few fits h =
      run_all-Driving speeds limit base n all hs (right_isr s) blind near few fits
        (rw (isr_forwards w s h.0).1 h)
  run_all-Driving speeds limit base n all (idle ∷ hs) s blind near few fits h =
      let (s', m, run, k) =
        run_all-Driving speeds limit base n all hs (turned w s) blind near few fits
          (turned-Driving speeds limit base n s blind h) in
      (s', m, rw (loop_idle w s) run, k)

  start_speeds :
      (amount speed : Float) (s : Alex Receiver) (m : Motor)
      → last_speed m (forward w amount speed s).calls ≡ some (speed_scaled w speed)
  unfolding forward move run_motors set_speeds
  start_speeds amount speed s front_left = refl
  start_speeds amount speed s front_right = refl
  start_speeds amount speed s back_left = refl
  start_speeds amount speed s back_right = refl

  low : (a b : ℕ) → a + b < 2 ^ 32 → ((a + b) % 2 ^ 32 ≡ a + b) × (a ≤ a + b)
  low a b h = (omega arith, omega arith)

  none_yet : (n : ℕ) → n ≡ n + 0
  none_yet n = omega arith

  start-Driving :
      (amount speed : Float) (s : Alex Receiver)
      → s.forward_dist + distance_to_go w amount < 2 ^ 32
      → Driving
          (λ m. some (speed_scaled w speed))
          (s.forward_dist + distance_to_go w amount)
          s.left_forward_ticks
          0
          (forward w amount speed s)
  unfolding forward move run_motors set_speeds
  start-Driving amount speed s fits =
      let (target, here) = low _ _ fits in
      (refl, target, here, none_yet s.left_forward_ticks, start_speeds amount speed s)

  -- A movement forwards by an amount, with sums that do not wrap around, goes on over any
  -- interrupts of the wheels and idle turns of `loop`, if no distance is measured that is from 11
  -- to 14 centimetres, and no number of the left wheel's ticks takes the rover past the amount: no
  -- turn of `loop` faults, and the rover still drives forwards with every motor at the speed that
  -- the movement was given, though an object be 10 centimetres away or nearer.
  pub run_all-drives :
      (amount speed : Float) (s : Alex Receiver) (hs : List Happening)
      → SeesNothing
      → s.forward_dist + distance_to_go w amount < 2 ^ 32
      → s.left_forward_ticks + lefts hs < 2 ^ 32
      → ((k : ℕ)
          → k ≤ lefts hs
          → travelled w (s.left_forward_ticks + k) ≤ s.forward_dist + distance_to_go w amount)
      → (s' : Alex Receiver) × (run_all w hs (forward w amount speed s) ≡ some s')
        × (s'.dir ≡ forwards)
        × ((m : Motor) → last_speed m s'.calls ≡ some (speed_scaled w speed))
  run_all-drives amount speed s hs blind fits few near =
      let limit = s.forward_dist + distance_to_go w amount in
      let (s', m, run, (dir, new, before, ticks, speeds)) =
        run_all-Driving (λ m. some (speed_scaled w speed)) limit s.left_forward_ticks 0 (lefts hs)
          hs (forward w amount speed s) blind near (rw zero-add (omega arith)) few
          (start-Driving amount speed s fits) in
      (s', run, dir, speeds)
