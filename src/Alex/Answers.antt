-- ===== src/Alex/Answers.antt =====
-- Every command of the Raspberry Pi is answered: the replies of `handlePacket` of alex/usart.ino.
use cg2111a_b.Base.{
  ℕ, ◌≤◌, ◌≡◌, refl, ap, sym, ◌∙◌, arith, List, [], ◌∷◌, some, if◌then◌else◌, leb, if-holds, ◌==◌,
  true, false,
}
use cg2111a_b.Packet.{Packet}
use cg2111a_b.Packet.Layout.{IsPacket}
use cg2111a_b.Alex.Typed.{IsTyped}
use cg2111a_b.Alex.{Alex, World}
use cg2111a_b.Alex.Replies.{send_ok}
use cg2111a_b.Alex.Sensors.{sensor_out}
use cg2111a_b.Alex.Commands.{
  float_param, minus_one, hundred, Case, move_forward, move_reverse, turn_left, turn_right, halt,
  get_stats, clear_stats, color, dist, unknown, case_of, run_param, run_keyboard, run_time,
  handle_command_param, handle_command_keyboard, handle_command_time, handle_packet,
}
use cg2111a_b.Alex.Wires.{
  Answered, quiet-Answered, forward-wires, backward-wires, left-wires, right-wires, stop-wires,
}
use cg2111a_b.Alex.Answering.{Answers, ok_then, run_common-Answers}

-- The types and the commands of the replies to a packet, the last first: one OK (3, 0), with what
-- was asked for, or one refusal (4, 4).
abbrev pub replies_to : ℕ → List (ℕ × ℕ)
replies_to command =
    if command == 5
    then (3, 1) ∷ (3, 0) ∷ []
    else (if command == 7
        then (3, 0) ∷ (3, 6) ∷ []
        else (if command == 8
            then (3, 0) ∷ (3, 7) ∷ []
            else (if leb command 8 then (3, 0) ∷ [] else (4, 4) ∷ [])))

abbrev pub replies : Packet → List (ℕ × ℕ)
replies p = if leb p.packet_type 2 then replies_to p.command else []

-- The same by the cases of the `switch`.
abbrev by_case : Case → List (ℕ × ℕ)
by_case get_stats = (3, 1) ∷ (3, 0) ∷ []
by_case color = (3, 0) ∷ (3, 6) ∷ []
by_case dist = (3, 0) ∷ (3, 7) ∷ []
by_case unknown = (4, 4) ∷ []
by_case _ = (3, 0) ∷ []

by_case-case_of : (c : ℕ) → by_case (case_of c) ≡ replies_to c
unfolding case_of
by_case-case_of c = ground arith

kind_low : (k j : ℕ) → (k == j) ≡ true → j ≤ 2 → leb k 2 ≡ true
kind_low k j e h = ground arith

kind_high : (k : ℕ) → (k == 0) ≡ false → (k == 1) ≡ false → (k == 2) ≡ false → leb k 2 ≡ false
kind_high k a b c = ground arith

replies_low :
    (p : Packet) (j : ℕ)
    → (p.packet_type == j) ≡ true
    → j ≤ 2
    → replies p ≡ by_case (case_of p.command)
replies_low p j e h =
    ap (λ b. if b then replies_to p.command else []) (kind_low p.packet_type j e h)
    ∙ sym (by_case-case_of p.command)

replies_high :
    (p : Packet)
    → (p.packet_type == 0) ≡ false
    → (p.packet_type == 1) ≡ false
    → (p.packet_type == 2) ≡ false
    → replies p ≡ []
replies_high p a b c =
    ap (λ b. if b then replies_to p.command else []) (kind_high p.packet_type a b c)

module _ (w : World) (hi : ℕ) (high : (s : Alex w.Receiver) → w.pulse s sensor_out ≤ hi)
    (short : hi ≤ 6553) (packets : (s : Alex w.Receiver) → IsPacket (w.packet s)) where
  open w use {Receiver}

  run_param-Answers :
      (c : Case) (p : Packet) (s : Alex Receiver)
      → IsTyped s
      → Answers w hi high short packets (by_case c) s (run_param w c p s)
  unfolding run_param
  run_param-Answers move_forward p s h = (
    _,
    refl,
    ok_then w hi high short packets s _
        (forward-wires w (float_param w p 0) (float_param w p 1) (send_ok w s)),
  )
  run_param-Answers move_reverse p s h = (
    _,
    refl,
    ok_then w hi high short packets s _
        (backward-wires w (float_param w p 0) (float_param w p 1) (send_ok w s)),
  )
  run_param-Answers turn_left p s h = (
    _,
    refl,
    ok_then w hi high short packets s _
        (left-wires w (float_param w p 0) (float_param w p 1) (send_ok w s)),
  )
  run_param-Answers turn_right p s h = (
    _,
    refl,
    ok_then w hi high short packets s _
        (right-wires w (float_param w p 0) (float_param w p 1) (send_ok w s)),
  )
  run_param-Answers halt p s h = run_common-Answers w hi high short packets halt s h
  run_param-Answers get_stats p s h = run_common-Answers w hi high short packets get_stats s h
  run_param-Answers clear_stats p s h = run_common-Answers w hi high short packets clear_stats s h
  run_param-Answers color p s h = run_common-Answers w hi high short packets color s h
  run_param-Answers dist p s h = run_common-Answers w hi high short packets dist s h
  run_param-Answers unknown p s h = run_common-Answers w hi high short packets unknown s h

  run_keyboard-Answers :
      (c : Case) (p : Packet) (s : Alex Receiver)
      → IsTyped s
      → Answers w hi high short packets (by_case c) s (run_keyboard w c p s)
  unfolding run_keyboard
  run_keyboard-Answers move_forward p s h = (
    _,
    refl,
    ok_then w hi high short packets s _
        (forward-wires w (minus_one w) (float_param w p 0) (send_ok w s)),
  )
  run_keyboard-Answers move_reverse p s h = (
    _,
    refl,
    ok_then w hi high short packets s _
        (backward-wires w (minus_one w) (float_param w p 0) (send_ok w s)),
  )
  run_keyboard-Answers turn_left p s h = (
    _,
    refl,
    ok_then w hi high short packets s _
        (left-wires w (minus_one w) (float_param w p 0) (send_ok w s)),
  )
  run_keyboard-Answers turn_right p s h = (
    _,
    refl,
    ok_then w hi high short packets s _
        (right-wires w (minus_one w) (float_param w p 0) (send_ok w s)),
  )
  run_keyboard-Answers halt p s h = run_common-Answers w hi high short packets halt s h
  run_keyboard-Answers get_stats p s h = run_common-Answers w hi high short packets get_stats s h
  run_keyboard-Answers clear_stats p s h =
      run_common-Answers w hi high short packets clear_stats s h
  run_keyboard-Answers color p s h = run_common-Answers w hi high short packets color s h
  run_keyboard-Answers dist p s h = run_common-Answers w hi high short packets dist s h
  run_keyboard-Answers unknown p s h = run_common-Answers w hi high short packets unknown s h

  run_time-Answers :
      (c : Case) (p : Packet) (s : Alex Receiver)
      → IsTyped s
      → Answers w hi high short packets (by_case c) s (run_time w c p s)
  unfolding run_time
  run_time-Answers move_forward p s h = (
    _,
    refl,
    ok_then w hi high short packets s _
        (stop-wires w _ ∙ forward-wires w (minus_one w) (hundred w) (send_ok w s)),
  )
  run_time-Answers move_reverse p s h = (
    _,
    refl,
    ok_then w hi high short packets s _
        (stop-wires w _ ∙ backward-wires w (minus_one w) (hundred w) (send_ok w s)),
  )
  run_time-Answers turn_left p s h = (
    _,
    refl,
    ok_then w hi high short packets s _
        (stop-wires w _ ∙ left-wires w (minus_one w) (hundred w) (send_ok w s)),
  )
  run_time-Answers turn_right p s h = (
    _,
    refl,
    ok_then w hi high short packets s _
        (stop-wires w _ ∙ right-wires w (minus_one w) (hundred w) (send_ok w s)),
  )
  run_time-Answers halt p s h = run_common-Answers w hi high short packets halt s h
  run_time-Answers get_stats p s h = run_common-Answers w hi high short packets get_stats s h
  run_time-Answers clear_stats p s h = run_common-Answers w hi high short packets clear_stats s h
  run_time-Answers color p s h = run_common-Answers w hi high short packets color s h
  run_time-Answers dist p s h = run_common-Answers w hi high short packets dist s h
  run_time-Answers unknown p s h = run_common-Answers w hi high short packets unknown s h

  -- Whatever a packet holds, if no pulse of the colour sensor is longer than 6553, the handler
  -- goes through and writes exactly the replies to it.
  pub handle_packet-Answers :
      (p : Packet) (s : Alex Receiver)
      → IsTyped s
      → (s' : Alex Receiver) × (handle_packet w p s ≡ some s') × Answered w (replies p) s s'
  unfolding handle_packet handle_command_param handle_command_keyboard handle_command_time
  handle_packet-Answers p s h =
      let kind = p.packet_type in
      let case = case_of p.command in
      if-holds (Answers w hi high short packets (replies p) s) (kind == 0) (run_param w case p s)
        (if kind == 1
          then run_keyboard w case p s
          else (if kind == 2 then run_time w case p s else some s))
        (λ e0. rw (replies_low p 0 e0 (omega arith)) (run_param-Answers case p s h))
        (λ n0.
          if-holds (Answers w hi high short packets (replies p) s) (kind == 1)
            (run_keyboard w case p s) (if kind == 2 then run_time w case p s else some s)
            (λ e1. rw (replies_low p 1 e1 (omega arith)) (run_keyboard-Answers case p s h))
            (λ n1.
              if-holds (Answers w hi high short packets (replies p) s) (kind == 2)
                (run_time w case p s) (some s)
                (λ e2. rw (replies_low p 2 e2 (omega arith)) (run_time-Answers case p s h))
                (λ n2. rw (replies_high p n0 n1 n2) (s, refl, quiet-Answered w s s refl))))
