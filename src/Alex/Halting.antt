-- ===== src/Alex/Halting.antt =====
-- Movements of a given amount end (alex/alex.ino, alex/robotlib.ino): a halted rover stays halted,
-- and one that has gone far enough is halted by the next turn of `loop`.
use cg2111a_b.Base.{
  if◌then◌else◌, ℕ, ◌≡◌, refl, arith, Bool, ◌&&◌, true, false, ◌⊎◌, inl, inr, [], ◌∷◌, some, ltb,
  if-holds, if-skips, ne→eq_false,
}
use cg2111a_b.Alex.{Alex, World, emit, read}
use cg2111a_b.Alex.Motion.{stop}
use cg2111a_b.Alex.Encoders.{left_isr, right_isr}
use cg2111a_b.Alex.Replies.{send_message}
use cg2111a_b.Alex.Sensors.{get_ultrasonic_distance}
use cg2111a_b.Alex.Main.{
  is_near, auto_stopped, avoid_collision, check_distance, check_turn, end_distance, end_turn,
}
use cg2111a_b.Alex.Happenings.{
  Happening, left_tick, right_tick, idle, happen, IsHalted, waited-IsHalted, quiet-IsHalted,
  distance_done, turn_done, check_distance_lem, check_turn_lem, loop_idle,
}

pub zero-and : (n : ℕ) (b : Bool) → n ≡ 0 → (ltb 0 n && b) ≡ false
zero-and n b e = rw e refl

module _ (w : World) where
  open w use {Float}
  open w use {Receiver}

  abbrev pub Check : Alex Receiver → Alex Receiver → Type 0
  Check s t = IsHalted w t ⊎ (t ≡ s)

  pub check_distance-Check : (s : Alex Receiver) → Check s (check_distance w s)
  check_distance-Check s = rw (check_distance_lem w s) (
      if-holds (Check s) (distance_done s) (end_distance w s) s
        (λ e. inl (waited-IsHalted w (record s { delta_dist = 0; new_dist = 0 }))) (λ e. inr refl))

  pub check_turn-Check : (s : Alex Receiver) → Check s (check_turn w s)
  check_turn-Check s = rw (check_turn_lem w s) (
      if-holds (Check s) (turn_done s) (end_turn w s) s
        (λ e. inl (waited-IsHalted w (record s { delta_ticks = 0; target_ticks = 0 })))
        (λ e. inr refl))

  pub check_distance-done :
      (s : Alex Receiver) → distance_done s ≡ true → IsHalted w (check_distance w s)
  check_distance-done s e =
      rw (check_distance_lem w s, e) (waited-IsHalted w (record s { delta_dist = 0; new_dist = 0 }))

  pub check_turn-done : (s : Alex Receiver) → turn_done s ≡ true → IsHalted w (check_turn w s)
  check_turn-done s e =
      rw (check_turn_lem w s, e)
        (waited-IsHalted w (record s { delta_ticks = 0; target_ticks = 0 }))

  pub check_distance-IsHalted : (s : Alex Receiver) → IsHalted w s → IsHalted w (check_distance w s)
  check_distance-IsHalted s h = elim (check_distance-Check s) [ inl k ↦ k | inr e ↦ rw e h ]

  pub check_turn-IsHalted : (s : Alex Receiver) → IsHalted w s → IsHalted w (check_turn w s)
  check_turn-IsHalted s h = elim (check_turn-Check s) [ inl k ↦ k | inr e ↦ rw e h ]

  avoid_collision-IsHalted : (s : Alex Receiver) → IsHalted w s → IsHalted w (avoid_collision w s)
  unfolding avoid_collision
  avoid_collision-IsHalted s h =
      let (d, s') = get_ultrasonic_distance w s in
      if-skips (IsHalted w) s.prevent_collision
        (if is_near d then send_message w auto_stopped (stop w s') else s') s h.no_prevention h

  -- The state after an idle turn.
  abbrev pub turned : Alex Receiver → Alex Receiver
  turned s = emit (read []) (check_turn w (check_distance w (avoid_collision w s)))

  pub read-IsHalted : (s : Alex Receiver) → IsHalted w s → IsHalted w (emit (read []) s)
  read-IsHalted s h = quiet-IsHalted w s (read [] ∷ s.calls) (λ m. refl) (λ m. refl) h

  pub turned-IsHalted : (s : Alex Receiver) → IsHalted w s → IsHalted w (turned s)
  turned-IsHalted s h =
      read-IsHalted _
        (check_turn-IsHalted _ (check_distance-IsHalted _ (avoid_collision-IsHalted s h)))

  ticked : (s : Alex Receiver) → IsHalted w s → (left_isr w s ≡ s) × (right_isr s ≡ s)
  unfolding left_isr right_isr
  ticked s h =
      let e1 = ne→eq_false s.dir 1 (rw h.no_dir (λ e. ground arith)) in
      let e2 = ne→eq_false s.dir 2 (rw h.no_dir (λ e. ground arith)) in
      let e3 = ne→eq_false s.dir 3 (rw h.no_dir (λ e. ground arith)) in
      let e4 = ne→eq_false s.dir 4 (rw h.no_dir (λ e. ground arith)) in
      (rw (e1, e2, e3, e4) refl, rw (e1, e2, e3, e4) refl)

  -- A halted rover stays halted.
  pub happen-IsHalted :
      (h : Happening) (s : Alex Receiver)
      → IsHalted w s
      → (s' : Alex Receiver) × (happen w h s ≡ some s') × IsHalted w s'
  happen-IsHalted left_tick s k = (left_isr w s, refl, rw (ticked s k).0 k)
  happen-IsHalted right_tick s k = (right_isr s, refl, rw (ticked s k).1 k)
  happen-IsHalted idle s k = (turned s, loop_idle w s, turned-IsHalted s k)
