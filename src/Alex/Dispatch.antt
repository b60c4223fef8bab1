-- ===== src/Alex/Dispatch.antt =====
-- The commands that the three handlers of alex/usart.ino treat alike.
use cg2111a_b.Base.{
  ℕ, ◌≤◌, ◌≡◌, refl, ap, ◌∙◌, arith, false, Option, some, if◌then◌else◌, ◌==◌, if-holds,
}
use cg2111a_b.Packet.{Packet}
use cg2111a_b.Alex.{Alex, World}
use cg2111a_b.Alex.Commands.{
  Case, move_forward, move_reverse, turn_left, turn_right, halt, get_stats, clear_stats, color,
  dist, unknown, case_of, run_common, run_param, run_keyboard, run_time, handle_command_param,
  handle_command_keyboard, handle_command_time, handle_packet,
}

abbrev pub IsCommon : Case → Type 0
IsCommon move_forward = ⊥
IsCommon move_reverse = ⊥
IsCommon turn_left = ⊥
IsCommon turn_right = ⊥
IsCommon _ = Unit

no_kind : (k : ℕ) → k ≤ 2 → (k == 0) ≡ false → (k == 1) ≡ false → (k == 2) ≡ false → ⊥
no_kind k h a b c = ground arith

module _ (w : World) where
  open w use {Receiver}

  alike :
      (c : Case) (p : Packet) (s : Alex Receiver)
      → IsCommon c
      → (run_param w c p s ≡ run_common w c s)
        × (run_keyboard w c p s ≡ run_common w c s)
        × (run_time w c p s ≡ run_common w c s)
  unfolding run_param run_keyboard run_time
  alike move_forward p s h = absurd h
  alike move_reverse p s h = absurd h
  alike turn_left p s h = absurd h
  alike turn_right p s h = absurd h
  alike halt p s h = (refl, refl, refl)
  alike get_stats p s h = (refl, refl, refl)
  alike clear_stats p s h = (refl, refl, refl)
  alike color p s h = (refl, refl, refl)
  alike dist p s h = (refl, refl, refl)
  alike unknown p s h = (refl, refl, refl)

  pub dispatched :
      (c : Case) (p : Packet) (s : Alex Receiver)
      → IsCommon c
      → case_of p.command ≡ c
      → p.packet_type ≤ 2
      → handle_packet w p s ≡ run_common w c s
  unfolding handle_packet handle_command_param handle_command_keyboard handle_command_time
  dispatched c p s common e low =
      let kind = p.packet_type in
      let case = case_of p.command in
      let (param, keyboard, time) = alike c p s common in
      let Right = λ (t : Option (Alex Receiver)). t ≡ run_common w c s in
      if-holds Right (kind == 0) (run_param w case p s)
        (if kind == 1
          then run_keyboard w case p s
          else (if kind == 2 then run_time w case p s else some s))
        (λ e0. ap (λ k. run_param w k p s) e ∙ param)
        (λ n0.
          if-holds Right (kind == 1) (run_keyboard w case p s)
            (if kind == 2 then run_time w case p s else some s)
            (λ e1. ap (λ k. run_keyboard w k p s) e ∙ keyboard)
            (λ n1.
              if-holds Right (kind == 2) (run_time w case p s) (some s)
                (λ e2. ap (λ k. run_time w k p s) e ∙ time)
                (λ n2. absurd (no_kind kind low n0 n1 n2))))
