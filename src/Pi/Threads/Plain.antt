-- ===== src/Pi/Threads/Plain.antt =====
-- `sendCommand` (RPi/usart.cpp) stays in a mode without curses, but for the characters 3 and 4.
use cg2111a_b.Base.{
  ℕ, ◌≡◌, ◌≢◌, refl, some, >>=-eq-some, Bool, true, false, ◌==◌, ◌||◌, false≢true, Bool-cases, inl,
  inr, arith, List,
}
use cg2111a_b.Base.Int.{leb_ℤ, pos}
use cg2111a_b.Packet.{Packet}
use cg2111a_b.Serialize.{serialize}
use cg2111a_b.Pi.{Pi, World}
use cg2111a_b.Pi.Serial.{serial_write}
use cg2111a_b.Pi.Send.{
  Case, mode_params, mode_hold, mode_press, mode_timed, move, stop, clear_stats, get_stats, color,
  dist, lcd, help, quit, bad, case_of, send_packet, get_params, run_case, send_command,
  leave_curses,
}
use cg2111a_b.Pi.Sound.{IsSound, draws, some_inj}
use cg2111a_b.Pi.Sound.Commands.{send_command-IsSound}

-- Sound, in a mode without curses.
pub record IsHeld {Float : Type 0} (s : Pi Float) : Type 0 where
  pub sound : IsSound s
  pub plain : draws s.keyboard_mode ≡ false

-- The cases that do not enter a mode that draws.
abbrev stays : Case → Bool
stays mode_press = false
stays mode_timed = false
stays _ = true

case_of-stays : (c : ℕ) → c ≢ b'3' → c ≢ b'4' → stays (case_of c) ≡ true
unfolding case_of
case_of-stays c three four = ground arith

module _ {Float : Type 0} where
  serial_write_mode :
      (bytes : List ℕ) (s : Pi Float) → (serial_write bytes s).keyboard_mode ≡ s.keyboard_mode
  unfolding serial_write
  serial_write_mode bytes s = elim (Bool-cases (leb_ℤ (pos 0) s.fd)) [
    | inl e ↦ rw e refl
    | inr e ↦ rw e refl
  ]

module _ (w : World) where
  open w use {Float}

  send_packet_mode :
      (p : Packet) (s s' : Pi Float)
      → send_packet w p s ≡ some s'
      → draws s.keyboard_mode ≡ false
      → draws s'.keyboard_mode ≡ false
  unfolding send_packet
  send_packet_mode p s s' run h =
      let (r, _, e) = >>=-eq-some (serialize _ _ _ _) _ run in
      let same : serial_write r.0 s ≡ s' = cc in rw (← same, serial_write_mode r.0 s) h

  get_params_mode :
      (p : Packet) (s : Pi Float) → (get_params w p s).1.keyboard_mode ≡ s.keyboard_mode
  unfolding get_params
  get_params_mode p s = elim (Bool-cases (s.keyboard_mode == 1)) [
    | inl e ↦ rw e refl
    | inr e ↦ rw e (elim (Bool-cases (s.keyboard_mode == 2 || s.keyboard_mode == 3)) [
      | inl f ↦ rw f refl
      | inr f ↦
          rw f (elim (Bool-cases (s.keyboard_mode == 4)) [ inl g ↦ rw g refl | inr g ↦ rw g refl ])
    ])
  ]

  leave_curses_mode : (s : Pi Float) → (leave_curses s).keyboard_mode ≡ s.keyboard_mode
  unfolding leave_curses
  leave_curses_mode s = elim (Bool-cases (draws s.keyboard_mode)) [
    | inl e ↦ rw e refl
    | inr e ↦ rw e refl
  ]

  run_case_mode :
      (k : Case) (p : Packet) (s s' : Pi Float)
      → stays k ≡ true
      → run_case w k p s ≡ some s'
      → draws s.keyboard_mode ≡ false
      → draws s'.keyboard_mode ≡ false
  unfolding run_case
  run_case_mode mode_params p s s' k run h = rw (← some_inj run) refl
  run_case_mode mode_hold p s s' k run h = rw (← some_inj run) refl
  run_case_mode mode_press p s s' k run h = absurd (false≢true k)
  run_case_mode mode_timed p s s' k run h = absurd (false≢true k)
  run_case_mode (move c) p s s' k run h = send_packet_mode _ _ s' run (rw get_params_mode h)
  run_case_mode stop p s s' k run h = send_packet_mode _ s s' run h
  run_case_mode clear_stats p s s' k run h = send_packet_mode _ s s' run h
  run_case_mode get_stats p s s' k run h = send_packet_mode _ s s' run h
  run_case_mode color p s s' k run h = send_packet_mode _ _ s' run h
  run_case_mode dist p s s' k run h = send_packet_mode _ _ s' run h
  run_case_mode lcd p s s' k run h = send_packet_mode _ _ s' run h
  run_case_mode help p s s' k run h = rw (← some_inj run) h
  run_case_mode quit p s s' k run h = rw (← some_inj run, leave_curses_mode s) h
  run_case_mode bad p s s' k run h = rw (← some_inj run) h

  pub send_command-IsHeld :
      (c : ℕ) (s s' : Pi Float)
      → c ≢ b'3'
      → c ≢ b'4'
      → send_command w c s ≡ some s'
      → IsHeld s
      → IsHeld s'
  unfolding send_command
  send_command-IsHeld c s s' three four run h = record {
    sound = send_command-IsSound w c s s' run h.sound;
    plain = run_case_mode (case_of c) _ s s' (case_of-stays c three four) run h.plain;
  }
