-- ===== src/Alex/Reach.antt =====
-- The range of the actuator that carries the colour sensor: `sendColor` of
-- alex/colour_sensor.ino, for the distances that the sensor gives.
use cg2111a_b.Base.{
  ℕ, ◌+◌, ◌-◌, ◌^◌, ◌≤◌, ◌<◌, ◌≡◌, refl, ap, ◌∙◌, arith, if◌then◌else◌, ltb, ltb→lt, if-holds,
}
use cg2111a_b.Base.Int.{pos, ◌-ℤ◌}
use cg2111a_b.Alex.{Alex, World}
use cg2111a_b.Alex.Sensors.{current_dist, extension, extend, extended}

-- How far the actuator goes for an object at `n` cm.
abbrev pub reach : ℕ → ℕ
reach n = if ltb n 7 then 7 else (if ltb n 10 then 0 else (if ltb n 16 then n - 9 else 7))

near_dist : (n : ℕ) → n < 7 → current_dist (pos n) ≡ 2 ^ 32 - 7 + n
unfolding ◌-ℤ◌
near_dist n h = ground arith

far_dist : (n : ℕ) → 7 ≤ n → n ≤ 32767 → current_dist (pos n) ≡ n - 7
unfolding ◌-ℤ◌
far_dist n h k = ground arith

pub reach_bound : (n : ℕ) → reach n ≤ 7
reach_bound n = ground arith

-- The test and the extension of the code, in terms of the distance.
reached : (n : ℕ) → n ≤ 32767 → ltb 2 (current_dist (pos n)) ≡ ltb 0 (reach n)
unfolding ◌-ℤ◌
reached n h = ground arith

extension_lem :
    (n : ℕ) → n ≤ 32767 → 2 < current_dist (pos n) → extension (current_dist (pos n)) ≡ reach n
unfolding ◌-ℤ◌
extension_lem n h k = ground arith

module _ (w : World) where
  open w use {Receiver}

  -- For an object at `n` cm the actuator goes out by `reach n`, at most 7 cm, and stays where it is
  -- when that is 0.
  pub extend-reach :
      (n : ℕ) (s : Alex Receiver)
      → n ≤ 32767
      → (extend w (current_dist (pos n)) s
          ≡ (if ltb 0 (reach n) then extended w (reach n) s else s))
        × (reach n ≤ 7)
  unfolding extend
  extend-reach n s h =
      let far = ltb 2 (current_dist (pos n)) in
      let e =
        if-holds (λ t. t ≡ (if far then extended w (reach n) s else s)) far
          (extended w (extension (current_dist (pos n))) s) s
          (λ k. rw k (ap (λ d. extended w d s) (extension_lem n h (ltb→lt 2 _ k))))
          (λ k. rw k refl) in
      (e ∙ ap (λ b. if b then extended w (reach n) s else s) (reached n h), reach_bound n)
