-- ===== src/Alex/Going.antt =====
-- A rover on its way (alex/robotlib.ino, alex/alex.ino): in each of the four directions, what one
-- happening does to the count of the wheel's ticks that the movement is measured by.
use cg2111a_b.Base.{
  ℕ, suc, ◌+◌, ◌%◌, ◌^◌, ◌<◌, ◌≡◌, refl, ap, ◌∙◌, arith, true, false, ◌⊎◌, inr, List, ◌∷◌, ◌==◌,
  eq_refl,
}
use cg2111a_b.Alex.{Alex, World, Event, forwards, backwards, leftwards, rightwards}
use cg2111a_b.Alex.Encoders.{next, travelled, left_isr, right_isr}
use cg2111a_b.Alex.Happenings.{Happening, left_tick, right_tick, idle, lefts, rights}

pub data Way : Type 0 where
  going_forward going_backward going_left going_right : Way

-- The ticks of the wheel that a movement is measured by, and those counted after one more happening.
abbrev pub counted : Way → List Happening → ℕ
counted going_right hs = rights hs
counted _ hs = lefts hs

abbrev pub count : Way → Happening → ℕ → ℕ
count going_right right_tick n = suc n
count going_right _ n = n
count _ left_tick n = suc n
count _ _ n = n

pub count-counted :
    (way : Way) (h : Happening) (hs : List Happening) (n : ℕ)
    → count way h n + counted way hs ≡ n + counted way (h ∷ hs)
count-counted going_forward left_tick hs n = omega arith
count-counted going_forward right_tick hs n = omega arith
count-counted going_forward idle hs n = omega arith
count-counted going_backward left_tick hs n = omega arith
count-counted going_backward right_tick hs n = omega arith
count-counted going_backward idle hs n = omega arith
count-counted going_left left_tick hs n = omega arith
count-counted going_left right_tick hs n = omega arith
count-counted going_left idle hs n = omega arith
count-counted going_right left_tick hs n = omega arith
count-counted going_right right_tick hs n = omega arith
count-counted going_right idle hs n = omega arith

next_mod : (base n : ℕ) → next ((base + n) % 2 ^ 32) ≡ (base + suc n) % 2 ^ 32
next_mod base n = omega arith

pub equal : (n k : ℕ) → n ≡ k → (n == k) ≡ true
equal n k e = rw e (eq_refl k)

pub other : (n k j : ℕ) → n ≡ k → (k == j) ≡ false → (n == j) ≡ false
other n k j e h = rw e h

module _ (w : World) where
  open w use {Receiver}

  -- The interrupts in each direction.
  pub isr_forwards :
      (s : Alex Receiver)
      → s.dir ≡ forwards
      → (left_isr w s ≡ record s {
        left_forward_ticks = next s.left_forward_ticks;
        forward_dist = travelled w (next s.left_forward_ticks);
      })
        × (right_isr s ≡ record s { right_forward_ticks = next s.right_forward_ticks })
  unfolding left_isr right_isr
  isr_forwards s e = let here = equal s.dir 1 e in (rw here refl, rw here refl)

  pub isr_backwards :
      (s : Alex Receiver)
      → s.dir ≡ backwards
      → (left_isr w s ≡ record s {
        left_reverse_ticks = next s.left_reverse_ticks;
        reverse_dist = travelled w (next s.left_reverse_ticks);
      })
        × (right_isr s ≡ record s { right_reverse_ticks = next s.right_reverse_ticks })
  unfolding left_isr right_isr
  isr_backwards s e =
      let here = equal s.dir 2 e in
      let not1 = other s.dir 2 1 e refl in (rw (not1, here) refl, rw (not1, here) refl)

  pub isr_leftwards :
      (s : Alex Receiver)
      → s.dir ≡ leftwards
      → (left_isr w s ≡ record s { left_reverse_turns = next s.left_reverse_turns })
        × (right_isr s ≡ record s { right_forward_turns = next s.right_forward_turns })
  unfolding left_isr right_isr
  isr_leftwards s e =
      let here = equal s.dir 3 e in
      let not1 = other s.dir 3 1 e refl in
      let not2 = other s.dir 3 2 e refl in (rw (not1, not2, here) refl, rw (not1, not2, here) refl)

  pub isr_rightwards :
      (s : Alex Receiver)
      → s.dir ≡ rightwards
      → (left_isr w s ≡ record s { left_forward_turns = next s.left_forward_turns })
        × (right_isr s ≡ record s { right_reverse_turns = next s.right_reverse_turns })
  unfolding left_isr right_isr
  isr_rightwards s e =
      let here = equal s.dir 4 e in
      let not1 = other s.dir 4 1 e refl in
      let not2 = other s.dir 4 2 e refl in
      let not3 = other s.dir 4 3 e refl in
      (rw (not1, not2, not3, here) refl, rw (not1, not2, not3, here) refl)

  -- On the way to `limit`, with `n` ticks since the counter was `base`.
  abbrev pub Going : Way → ℕ → ℕ → ℕ → Alex Receiver → Type 0
  Going going_forward limit base n s =
      (s.dir ≡ forwards)
      × (0 < s.delta_dist)
      × (s.new_dist ≡ limit)
      × (s.left_forward_ticks ≡ (base + n) % 2 ^ 32)
      × ((n ≡ 0) ⊎ (s.forward_dist ≡ travelled w ((base + n) % 2 ^ 32)))
  Going going_backward limit base n s =
      (s.dir ≡ backwards)
      × (0 < s.delta_dist)
      × (s.new_dist ≡ limit)
      × (s.left_reverse_ticks ≡ (base + n) % 2 ^ 32)
      × ((n ≡ 0) ⊎ (s.reverse_dist ≡ travelled w ((base + n) % 2 ^ 32)))
  Going going_left limit base n s =
      (s.dir ≡ leftwards)
      × (0 < s.delta_ticks)
      × (s.target_ticks ≡ limit)
      × (s.left_reverse_turns ≡ (base + n) % 2 ^ 32)
  Going going_right limit base n s =
      (s.dir ≡ rightwards)
      × (0 < s.delta_ticks)
      × (s.target_ticks ≡ limit)
      × (s.right_reverse_turns ≡ (base + n) % 2 ^ 32)

  ticked_once : (base n k : ℕ) → k ≡ (base + n) % 2 ^ 32 → next k ≡ (base + suc n) % 2 ^ 32
  ticked_once base n k e = ap next e ∙ next_mod base n

  pub left_tick-Going :
      (way : Way) (limit base n : ℕ) (s : Alex Receiver)
      → Going way limit base n s
      → Going way limit base (count way left_tick n) (left_isr w s)
  left_tick-Going going_forward limit base n s (dir, delta, new, ticks, dist) =
      let e = ticked_once base n s.left_forward_ticks ticks in
      rw (isr_forwards s dir).0 (dir, delta, new, e, inr (ap (travelled w) e))
  left_tick-Going going_backward limit base n s (dir, delta, new, ticks, dist) =
      let e = ticked_once base n s.left_reverse_ticks ticks in
      rw (isr_backwards s dir).0 (dir, delta, new, e, inr (ap (travelled w) e))
  left_tick-Going going_left limit base n s (dir, delta, target, ticks) =
      rw (isr_leftwards s dir).0 (dir, delta, target, ticked_once base n s.left_reverse_turns ticks)
  left_tick-Going going_right limit base n s h = rw (isr_rightwards s h.0).0 h

  pub right_tick-Going :
      (way : Way) (limit base n : ℕ) (s : Alex Receiver)
      → Going way limit base n s
      → Going way limit base (count way right_tick n) (right_isr s)
  right_tick-Going going_forward limit base n s h = rw (isr_forwards s h.0).1 h
  right_tick-Going going_backward limit base n s h = rw (isr_backwards s h.0).1 h
  right_tick-Going going_left limit base n s h = rw (isr_leftwards s h.0).1 h
  right_tick-Going going_right limit base n s (dir, delta, target, ticks) =
      rw (isr_rightwards s dir).1
        (dir, delta, target, ticked_once base n s.right_reverse_turns ticks)

  -- Calls change nothing of it.
  pub called-Going :
      (way : Way) (limit base n : ℕ) (s : Alex Receiver) (calls : List Event)
      → Going way limit base n s
      → Going way limit base n (record s { calls = calls })
  called-Going going_forward limit base n s calls h = h
  called-Going going_backward limit base n s calls h = h
  called-Going going_left limit base n s calls h = h
  called-Going going_right limit base n s calls h = h
