-- ===== src/Alex/Arriving.antt =====
-- Movements of a given amount end (alex/robotlib.ino, alex/alex.ino): over any happenings, to the
-- halt.
use cg2111a_b.Base.{
  ℕ, ◌+◌, ◌%◌, ◌^◌, ◌≤◌, ◌<◌, ◌≡◌, refl, arith, true, ◌⊎◌, inl, inr, List, [], ◌∷◌, ◌++◌, some,
  lt→ltb, le→leb,
}
use native.Mathlib.Nat.{zero-add}
use cg2111a_b.Alex.{Alex, World, emit, read, forwards, backwards, leftwards, rightwards}
use cg2111a_b.Alex.Encoders.{travelled}
use cg2111a_b.Alex.Main.{avoid_collision, check_distance, check_turn}
use cg2111a_b.Alex.Happenings.{
  Happening, idle, run_all, IsHalted, distance_done, turn_done, avoid_collision-cases, loop_idle,
}
use cg2111a_b.Alex.Halting.{
  turned, check_distance-Check, check_distance-done, check_turn-done, check_distance-IsHalted,
  check_turn-IsHalted, read-IsHalted, turned-IsHalted, happen-IsHalted,
}
use cg2111a_b.Alex.Going.{
  Way, going_forward, going_backward, going_left, going_right, counted, count, count-counted, Going,
  called-Going, equal, other,
}
use cg2111a_b.Alex.Starting.{start, base, limit, Enough, start-Going, happen-Going}

counted_nil : (way : Way) (n : ℕ) → n + counted way [] ≡ n
counted_nil going_forward n = omega arith
counted_nil going_backward n = omega arith
counted_nil going_left n = omega arith
counted_nil going_right n = omega arith

-- Sums that do not wrap around.
fitted : (f : ℕ → ℕ) (a b : ℕ) → b < 2 ^ 32 → a < 2 ^ 32 → a < f b → a % 2 ^ 32 < f (b % 2 ^ 32)
fitted f a b hb ha h =
    let ea : a % 2 ^ 32 ≡ a = omega arith in let eb : b % 2 ^ 32 ≡ b = omega arith in rw (ea, eb) h

reached : (a d n : ℕ) → d ≤ n → a + n < 2 ^ 32 → (a + d) % 2 ^ 32 ≤ (a + n) % 2 ^ 32
reached a d n h fits = omega arith

module _ {R : Type 0} (s : Alex R) where
  done_forwards :
      s.dir ≡ forwards → 0 < s.delta_dist → s.new_dist < s.forward_dist → distance_done s ≡ true
  done_forwards dir some_way far =
      rw (lt→ltb 0 s.delta_dist some_way, equal s.dir 1 dir, lt→ltb s.new_dist s.forward_dist far)
        refl

  done_backwards :
      s.dir ≡ backwards → 0 < s.delta_dist → s.new_dist < s.reverse_dist → distance_done s ≡ true
  done_backwards dir some_way far =
      rw
        (
          lt→ltb 0 s.delta_dist some_way,
          other s.dir 2 1 dir refl,
          equal s.dir 2 dir,
          lt→ltb s.new_dist s.reverse_dist far,
        )
        refl

  done_leftwards :
      s.dir ≡ leftwards
      → 0 < s.delta_ticks
      → s.target_ticks ≤ s.left_reverse_turns
      → turn_done s ≡ true
  done_leftwards dir some_way far =
      rw
        (
          lt→ltb 0 s.delta_ticks some_way,
          equal s.dir 3 dir,
          le→leb s.target_ticks s.left_reverse_turns far,
        )
        refl

  done_rightwards :
      s.dir ≡ rightwards
      → 0 < s.delta_ticks
      → s.target_ticks ≤ s.right_reverse_turns
      → turn_done s ≡ true
  done_rightwards dir some_way far =
      rw
        (
          lt→ltb 0 s.delta_ticks some_way,
          other s.dir 4 3 dir refl,
          equal s.dir 4 dir,
          le→leb s.target_ticks s.right_reverse_turns far,
        )
        refl

module _ (w : World) where
  open w use {Float}
  open w use {Receiver}

  -- The checks of the turn after the last tick.
  abbrev Far : Way → ℕ → ℕ → ℕ → Type 0
  Far going_forward lim b n = (0 < n) × (lim < travelled w ((b + n) % 2 ^ 32))
  Far going_backward lim b n = (0 < n) × (lim < travelled w ((b + n) % 2 ^ 32))
  Far _ lim b n = lim ≤ (b + n) % 2 ^ 32

  checks-IsHalted :
      (s : Alex Receiver)
      → IsHalted w s
      → IsHalted w (emit (read []) (check_turn w (check_distance w s)))
  checks-IsHalted s k = read-IsHalted w _ (check_turn-IsHalted w _ (check_distance-IsHalted w _ k))

  turn_checked :
      (s : Alex Receiver) → turn_done s ≡ true → IsHalted w (check_turn w (check_distance w s))
  turn_checked s done = elim (check_distance-Check w s) [
    | inl k ↦ check_turn-IsHalted w (check_distance w s) k
    | inr e ↦ rw e (check_turn-done w s done)
  ]

  arrived :
      (way : Way) (lim b n : ℕ) (s : Alex Receiver)
      → Going w way lim b n s
      → Far way lim b n
      → IsHalted w (check_turn w (check_distance w s))
  arrived going_forward lim b n s (dir, some_way, new, ticks, inl none_yet) far =
      absurd (omega arith)
  arrived going_forward lim b n s (dir, some_way, new, ticks, inr dist) far =
      check_turn-IsHalted w (check_distance w s)
        (check_distance-done w s (done_forwards s dir some_way (rw (new, dist) far.1)))
  arrived going_backward lim b n s (dir, some_way, new, ticks, inl none_yet) far =
      absurd (omega arith)
  arrived going_backward lim b n s (dir, some_way, new, ticks, inr dist) far =
      check_turn-IsHalted w (check_distance w s)
        (check_distance-done w s (done_backwards s dir some_way (rw (new, dist) far.1)))
  arrived going_left lim b n s (dir, some_way, target, ticks) far =
      turn_checked s (done_leftwards s dir some_way (rw (target, ticks) far))
  arrived going_right lim b n s (dir, some_way, target, ticks) far =
      turn_checked s (done_rightwards s dir some_way (rw (target, ticks) far))

  arrived_turned :
      (way : Way) (lim b n : ℕ) (s : Alex Receiver)
      → Going w way lim b n s
      → Far way lim b n
      → IsHalted w (turned w s)
  arrived_turned way lim b n s h far = elim (avoid_collision-cases w s) [
    | inl k ↦ checks-IsHalted (avoid_collision w s) k
    | inr (calls, e) ↦ rw e (
        read-IsHalted w _ (
          arrived way lim b n (record s { calls = calls }) (called-Going w way lim b n s calls h)
            far))
  ]

  Enough-Far :
      (way : Way) (amount : Float) (s : Alex Receiver) (n : ℕ)
      → Enough w way amount s n
      → Far way (limit w way amount s) (base w way s) n
  Enough-Far going_forward amount s n (some_way, ticks, fits, low, far) =
      (ticks, fitted (travelled w) _ _ fits low far)
  Enough-Far going_backward amount s n (some_way, ticks, fits, low, far) =
      (ticks, fitted (travelled w) _ _ fits low far)
  Enough-Far going_left amount s n (far, fits) = reached _ _ _ far fits
  Enough-Far going_right amount s n (far, fits) = reached _ _ _ far fits

  -- Over any happenings the rover is halted or still on its way.
  run_all-Going :
      (way : Way) (lim b n : ℕ) (hs : List Happening) (s : Alex Receiver)
      → IsHalted w s ⊎ Going w way lim b n s
      → Far way lim b (n + counted way hs)
      → (s' : Alex Receiver) × (run_all w (hs ++ (idle ∷ [])) s ≡ some s') × IsHalted w s'
  unfolding run_all
  run_all-Going way lim b n [] s state far = (
    turned w s,
    rw (loop_idle w s) refl,
    elim state [
      | inl k ↦ turned-IsHalted w s k
      | inr h ↦ arrived_turned way lim b n s h (rw (counted_nil way n) at far)
    ],
  )
  run_all-Going way lim b n (h ∷ hs) s (inl k) far =
      let (s1, step, halted) = happen-IsHalted w h s k in
      let (s2, rest, done) =
        run_all-Going way lim b (count way h n) hs s1 (inl halted)
          (rw (count-counted way h hs n) far) in
      (s2, rw step rest, done)
  run_all-Going way lim b n (h ∷ hs) s (inr g) far =
      let (s1, step, state) = happen-Going w way lim b n h s g in
      let (s2, rest, done) =
        run_all-Going way lim b (count way h n) hs s1 state (rw (count-counted way h hs n) far) in
      (s2, rw step rest, done)

  -- A movement of an amount, over any interrupts of the wheels and idle turns of `loop` in which
  -- the wheel that it is measured by has ticked often enough, faults nowhere, and the turn of
  -- `loop` after them leaves the rover halted.
  pub run_all-halts :
      (way : Way) (amount speed : Float) (s : Alex Receiver) (hs : List Happening)
      → Enough w way amount s (counted way hs)
      → (s' : Alex Receiver) × (run_all w (hs ++ (idle ∷ [])) (start w way amount speed s)
          ≡ some s')
        × IsHalted w s'
  run_all-halts way amount speed s hs enough =
      run_all-Going way (limit w way amount s) (base w way s) 0 hs (start w way amount speed s)
        (inr (start-Going w way amount speed s (counted way hs) enough))
        (rw zero-add (Enough-Far way amount s (counted way hs) enough))
