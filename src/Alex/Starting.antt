-- ===== src/Alex/Starting.antt =====
-- The start of a movement of a given amount (alex/robotlib.ino, alex/alex.ino), and what one
-- happening does to it.
use cg2111a_b.Base.{ℕ, ◌+◌, ◌%◌, ◌^◌, ◌≤◌, ◌<◌, ◌≡◌, refl, arith, ◌⊎◌, inl, inr, [], ◌∷◌, some}
use cg2111a_b.Alex.{Alex, World, read}
use cg2111a_b.Alex.Motion.{
  distance_to_go, ticks_to_go, forward, backward, left, right, ccw, cw, move, run_motors,
  set_speeds,
}
use cg2111a_b.Alex.Encoders.{travelled, left_isr, right_isr}
use cg2111a_b.Alex.Happenings.{
  Happening, left_tick, right_tick, idle, happen, IsHalted, avoid_collision-cases, loop_idle,
}
use cg2111a_b.Alex.Halting.{
  turned, check_distance-Check, check_turn-Check, check_distance-IsHalted, check_turn-IsHalted,
  read-IsHalted,
}
use cg2111a_b.Alex.Going.{
  Way, going_forward, going_backward, going_left, going_right, count, Going, left_tick-Going,
  right_tick-Going, called-Going,
}

count_idle : (way : Way) (n : ℕ) → count way idle n ≡ n
count_idle going_forward n = refl
count_idle going_backward n = refl
count_idle going_left n = refl
count_idle going_right n = refl

module _ (w : World) where
  open w use {Float}
  open w use {Receiver}

  -- The four movements.
  abbrev pub start : Way → Float → Float → Alex Receiver → Alex Receiver
  start going_forward amount speed s = forward w amount speed s
  start going_backward amount speed s = backward w amount speed s
  start going_left amount speed s = left w amount speed s
  start going_right amount speed s = right w amount speed s

  abbrev pub base : Way → Alex Receiver → ℕ
  base going_forward s = s.left_forward_ticks
  base going_backward s = s.left_reverse_ticks
  base going_left s = s.left_reverse_turns
  base going_right s = s.right_reverse_turns

  abbrev pub limit : Way → Float → Alex Receiver → ℕ
  limit going_forward amount s = (s.forward_dist + distance_to_go w amount) % 2 ^ 32
  limit going_backward amount s = (s.reverse_dist + distance_to_go w amount) % 2 ^ 32
  limit going_left amount s = (s.left_reverse_turns + ticks_to_go w amount) % 2 ^ 32
  limit going_right amount s = (s.right_reverse_turns + ticks_to_go w amount) % 2 ^ 32

  -- `n` ticks after the start are enough for the amount, and no counter wraps around.
  abbrev pub Enough : Way → Float → Alex Receiver → ℕ → Type 0
  Enough going_forward amount s n =
      (0 < distance_to_go w amount)
      × (0 < n)
      × (s.left_forward_ticks + n < 2 ^ 32)
      × (s.forward_dist + distance_to_go w amount < 2 ^ 32)
      × (s.forward_dist + distance_to_go w amount < travelled w (s.left_forward_ticks + n))
  Enough going_backward amount s n =
      (0 < distance_to_go w amount)
      × (0 < n)
      × (s.left_reverse_ticks + n < 2 ^ 32)
      × (s.reverse_dist + distance_to_go w amount < 2 ^ 32)
      × (s.reverse_dist + distance_to_go w amount < travelled w (s.left_reverse_ticks + n))
  Enough going_left amount s n = (ticks_to_go w amount ≤ n) × (s.left_reverse_turns + n < 2 ^ 32)
  Enough going_right amount s n = (ticks_to_go w amount ≤ n) × (s.right_reverse_turns + n < 2 ^ 32)

  some_ticks : (amount : Float) → 0 < ticks_to_go w amount
  some_ticks amount = ground arith

  small : (a n : ℕ) → a + n < 2 ^ 32 → a ≡ (a + 0) % 2 ^ 32
  small a n h = omega arith

  pub start-Going :
      (way : Way) (amount speed : Float) (s : Alex Receiver) (n : ℕ)
      → Enough way amount s n
      → Going w way (limit way amount s) (base way s) 0 (start way amount speed s)
  unfolding forward backward left right ccw cw move run_motors set_speeds
  start-Going going_forward amount speed s n (some_way, ticks, fits, low, far) =
      (refl, some_way, refl, small s.left_forward_ticks n fits, inl refl)
  start-Going going_backward amount speed s n (some_way, ticks, fits, low, far) =
      (refl, some_way, refl, small s.left_reverse_ticks n fits, inl refl)
  start-Going going_left amount speed s n (far, fits) =
      (refl, some_ticks amount, refl, small s.left_reverse_turns n fits)
  start-Going going_right amount speed s n (far, fits) =
      (refl, some_ticks amount, refl, small s.right_reverse_turns n fits)

  turned-Going :
      (way : Way) (lim b n : ℕ) (s : Alex Receiver)
      → Going w way lim b n s
      → IsHalted w (turned w s) ⊎ Going w way lim b n (turned w s)
  turned-Going way lim b n s h = elim (avoid_collision-cases w s) [
    | inl k ↦ inl (read-IsHalted w _ (check_turn-IsHalted w _ (check_distance-IsHalted w _ k)))
    | inr (calls, e) ↦ rw e (elim (check_distance-Check w (record s { calls = calls })) [
      | inl k ↦ inl (read-IsHalted w _ (check_turn-IsHalted w _ k))
      | inr e2 ↦ rw e2 (elim (check_turn-Check w (record s { calls = calls })) [
        | inl k ↦ inl (read-IsHalted w _ k)
        | inr e3 ↦ rw e3 (inr (called-Going w way lim b n s (read [] ∷ calls) h))
      ])
    ])
  ]

  pub happen-Going :
      (way : Way) (lim b n : ℕ) (h : Happening) (s : Alex Receiver)
      → Going w way lim b n s
      → (s' : Alex Receiver) × (happen w h s ≡ some s')
        × (IsHalted w s' ⊎ Going w way lim b (count way h n) s')
  happen-Going way lim b n left_tick s k =
      (left_isr w s, refl, inr (left_tick-Going w way lim b n s k))
  happen-Going way lim b n right_tick s k =
      (right_isr s, refl, inr (right_tick-Going w way lim b n s k))
  happen-Going way lim b n idle s k =
      rw (count_idle way n) (turned w s, loop_idle w s, turned-Going way lim b n s k)
