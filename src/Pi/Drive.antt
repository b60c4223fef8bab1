-- ===== src/Pi/Drive.antt =====
-- What a driving command of `sendCommand` (RPi/usart.cpp) carries.
use cg2111a_b.Base.{
  ℕ, ◌≡◌, refl, arith, List, [], ◌∷◌, some, true, false, Bool-cases, inl, inr, if◌then◌else◌, ◌==◌,
  ◌||◌, ◌<◌, ◌≤◌, ◌^◌, length, set, get_or,
}
use cg2111a_b.Base.Int.{pos, to_word, ◌≤ℤ◌}
use cg2111a_b.Packet.{Packet, packet_bytes, param, set_param}
use cg2111a_b.Packet.Layout.{IsPacket}
use cg2111a_b.Packet.Stores.{set_param-IsPacket, coded-IsPacket}
use cg2111a_b.Serialize.Roundtrip.{frame}
use cg2111a_b.Pi.{Pi, World, CommandType, command_code, write, emit}
use cg2111a_b.Pi.Send.{move, case_of, get_params, run_case, send_command, packet_type_of}
use cg2111a_b.Pi.Params.{IsStack, to_word-lt}
use cg2111a_b.Pi.Requests.{send_packet_lem}

-- The delay in the mode of small adjustments, and the speed in the two others without parameters.
abbrev pub carried : {Float : Type 0} → Pi Float → ℕ
carried s = if s.keyboard_mode == 4 then to_word s.delay_time else to_word s.speed

carried-lt : {Float : Type 0} (s : Pi Float) → carried s < 2 ^ 32
carried-lt s = elim (Bool-cases (s.keyboard_mode == 4)) [
  | inl e ↦ rw e (to_word-lt s.delay_time)
  | inr e ↦ rw e (to_word-lt s.speed)
]

param-set_param : (v : ℕ) (p : Packet) → IsPacket p → param (set_param 0 v p) 0 ≡ v
param-set_param v p h = first p.params h.params_size
  where
    first : (ws : List ℕ) → length ws ≡ 16 → get_or (set ws 0 v) 0 0 ≡ v
    first [] e = absurd (omega arith)
    first (w ∷ ws) e = refl

later_modes : (n : ℕ) → 2 ≤ n → n ≤ 4 → (n == 2 || n == 3) ≡ false → (n == 4) ≡ true
later_modes n low high e = ground arith

no_four : (n : ℕ) → (n == 2 || n == 3) ≡ true → (n == 4) ≡ false
no_four n e = ground arith

not_one : (n : ℕ) → 2 ≤ n → (n == 1) ≡ false
not_one n low = ground arith

module _ (w : World) (stacks : (s : Pi w.Float) → IsStack (w.stack s)) where
  open w use {Float, stack}

  get_params-carried :
      (p : Packet) (s : Pi Float)
      → 2 ≤ s.keyboard_mode
      → s.keyboard_mode ≤ 4
      → get_params w p s ≡ (set_param 0 (carried s) p, s)
  unfolding get_params
  get_params-carried p s low high =
      elim (Bool-cases (s.keyboard_mode == 2 || s.keyboard_mode == 3)) [
        | inl e ↦ rw (not_one s.keyboard_mode low, e, no_four s.keyboard_mode e) refl
        | inr e ↦ rw (not_one s.keyboard_mode low, e, later_modes s.keyboard_mode low high e) refl
      ]

  -- In the three modes that do not ask for parameters, with the port open, a driving character is
  -- one write of a framed packet and nothing else: the packet has the command of the character, and
  -- its first parameter is the word of the delay in the mode of small adjustments and that of the
  -- speed in the two others. The uninitialised locals have the sizes of their types.
  pub send_command-carried :
      (c : ℕ) (code : CommandType) (s : Pi Float)
      → case_of c ≡ move code
      → 2 ≤ s.keyboard_mode
      → s.keyboard_mode ≤ 4
      → pos 0 ≤ℤ s.fd
      → (p : Packet) × (send_command w c s
          ≡ some (emit (write (frame (stack s).slot (packet_bytes p))) s))
        × (p.command ≡ command_code code)
        × (param p 0 ≡ carried s)
  unfolding send_command run_case
  send_command-carried c code s drives low high port =
      let p = record ((stack s).packet) { packet_type = packet_type_of s.keyboard_mode } in
      let shape : IsPacket p =
        coded-IsPacket (stack s).packet (packet_type_of s.keyboard_mode) (stack s).packet.command
          (stacks s).packet in
      let q = record (set_param 0 (carried s) p) { command = command_code code } in
      let ready : IsPacket q =
        coded-IsPacket (set_param 0 (carried s) p) p.packet_type (command_code code)
          (set_param-IsPacket 0 (carried s) p shape (carried-lt s)) in
      (
        q,
        rw (drives, get_params-carried p s low high) (send_packet_lem w stacks q s ready port),
        refl,
        param-set_param (carried s) p shape,
      )
