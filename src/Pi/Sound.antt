-- ===== src/Pi/Sound.antt =====
-- What holds of the Raspberry Pi's globals between two turns of `main` (RPi/alex-pi.cpp): the
-- speed and the delay stay in range, and the curses screen is on exactly in the two modes that
-- draw on it.
pub mod Commands
use cg2111a_b.Base.{
  ℕ, ◌%◌, ◌≤◌, ◌≡◌, refl, ◌∙◌, arith, List, [], ◌∷◌, some, >>=-eq-some, Bool, true, false, ◌||◌,
  ◌==◌, Bool-cases, ◌⊎◌, inl, inr,
}
use cg2111a_b.Base.Int.{ℤ, pos, negsuc, leb_ℤ}
use cg2111a_b.Packet.{Packet}
use cg2111a_b.Serialize.{serialize}
use cg2111a_b.Pi.{Pi, Event, World, write, initscr, endwin}
use cg2111a_b.Pi.Serial.{serial_write}
use cg2111a_b.Pi.Send.{
  Case, mode_params, mode_hold, mode_press, mode_timed, move, stop, clear_stats, get_stats, color,
  dist, lcd, help, quit, bad, case_of, send_packet, get_params, run_case, send_command,
  leave_curses, enter_curses,
}

-- The speed is a multiple of 5 from 0 to 100, and the delay one of 50.
abbrev pub IsSpeed : ℤ → Type 0
IsSpeed (pos n) = (n ≤ 100) × (n % 5 ≡ 0)
IsSpeed (negsuc n) = ⊥

abbrev pub IsDelay : ℤ → Type 0
IsDelay (pos n) = n % 50 ≡ 0
IsDelay (negsuc n) = ⊥

-- Whether the last of `initscr` and `endwin` was `initscr`.
abbrev pub curses_on : {Float : Type 0} → List (Event Float) → Bool
curses_on [] = false
curses_on (initscr ∷ calls) = true
curses_on (endwin ∷ calls) = false
curses_on (_ ∷ calls) = curses_on calls

abbrev pub draws : ℕ → Bool
draws mode = mode == 3 || mode == 4

pub record IsSound {Float : Type 0} (s : Pi Float) : Type 0 where
  pub speed_ok : IsSpeed s.speed
  pub delay_ok : IsDelay s.delay_time
  pub mode_low : 1 ≤ s.keyboard_mode
  pub mode_high : s.keyboard_mode ≤ 4
  pub screen : (s.exit_flag ≡ true) ⊎ (curses_on s.calls ≡ draws s.keyboard_mode)

other_modes : (n : ℕ) → 1 ≤ n → n ≤ 4 → (n == 1 || n == 2) ≡ false → draws n ≡ true
other_modes n low high e = ground arith

module _ {Float : Type 0} where
  -- What the invariant does not speak of may change.
  pub kept-IsSound :
      (s s' : Pi Float)
      → s'.speed ≡ s.speed
      → s'.delay_time ≡ s.delay_time
      → s'.keyboard_mode ≡ s.keyboard_mode
      → s'.exit_flag ≡ s.exit_flag
      → curses_on s'.calls ≡ curses_on s.calls
      → IsSound s
      → IsSound s'
  kept-IsSound s s' speed delay mode exit calls h = record {
    speed_ok = rw speed h.speed_ok;
    delay_ok = rw delay h.delay_ok;
    mode_low = rw mode h.mode_low;
    mode_high = rw mode h.mode_high;
    screen = rw (calls, mode, exit) h.screen;
  }

  pub sped-IsSound :
      (s : Pi Float) (z : ℤ) (calls : List (Event Float))
      → IsSpeed z
      → curses_on calls ≡ curses_on s.calls
      → IsSound s
      → IsSound (record s { speed = z; calls = calls })
  sped-IsSound s z calls k e h = record {
    speed_ok = k;
    delay_ok = h.delay_ok;
    mode_low = h.mode_low;
    mode_high = h.mode_high;
    screen = rw e h.screen;
  }

  pub delayed-IsSound :
      (s : Pi Float) (z : ℤ) (calls : List (Event Float))
      → IsDelay z
      → curses_on calls ≡ curses_on s.calls
      → IsSound s
      → IsSound (record s { delay_time = z; calls = calls })
  delayed-IsSound s z calls k e h = record {
    speed_ok = h.speed_ok;
    delay_ok = k;
    mode_low = h.mode_low;
    mode_high = h.mode_high;
    screen = rw e h.screen;
  }

  -- Calls that leave the screen alone.
  pub drawn-IsSound :
      (s : Pi Float) (calls : List (Event Float))
      → IsSound s
      → curses_on calls ≡ curses_on s.calls
      → IsSound (record s { calls = calls })
  drawn-IsSound s calls h e = kept-IsSound s _ refl refl refl refl e h

  pub leave_curses_calls :
      (s : Pi Float) → leave_curses s ≡ record s { calls = (leave_curses s).calls }
  unfolding leave_curses
  leave_curses_calls s = elim (Bool-cases (s.keyboard_mode == 3 || s.keyboard_mode == 4)) [
    | inl e ↦ rw e refl
    | inr e ↦ rw e refl
  ]

  pub enter_curses_calls :
      (s : Pi Float) → enter_curses s ≡ record s { calls = (enter_curses s).calls }
  unfolding enter_curses
  enter_curses_calls s = elim (Bool-cases (s.keyboard_mode == 1 || s.keyboard_mode == 2)) [
    | inl e ↦ rw e refl
    | inr e ↦ rw e refl
  ]

  pub leave_curses_off :
      (s : Pi Float) → IsSound s → (s.exit_flag ≡ true) ⊎ (curses_on (leave_curses s).calls ≡ false)
  unfolding leave_curses
  leave_curses_off s h = elim h.screen [
    | inl x ↦ inl x
    | inr d ↦
        inr (elim (Bool-cases (draws s.keyboard_mode)) [ inl e ↦ rw e refl | inr e ↦ rw e (d ∙ e) ])
  ]

  pub enter_curses_on :
      (s : Pi Float) → IsSound s → (s.exit_flag ≡ true) ⊎ (curses_on (enter_curses s).calls ≡ true)
  unfolding enter_curses
  enter_curses_on s h = elim h.screen [
    | inl x ↦ inl x
    | inr d ↦ inr (elim (Bool-cases (s.keyboard_mode == 1 || s.keyboard_mode == 2)) [
      | inl e ↦ rw e refl
      | inr e ↦ rw e (d ∙ other_modes s.keyboard_mode h.mode_low h.mode_high e)
    ])
  ]

  pub serial_write-IsSound :
      (bytes : List ℕ) (s : Pi Float) → IsSound s → IsSound (serial_write bytes s)
  unfolding serial_write
  serial_write-IsSound bytes s h = elim (Bool-cases (leb_ℤ (pos 0) s.fd)) [
    | inl e ↦ rw e (drawn-IsSound s (write bytes ∷ s.calls) h refl)
    | inr e ↦ rw e h
  ]

  -- A case that sets the mode and the screen together.
  pub entered-IsSound :
      (s : Pi Float) (calls : List (Event Float)) (mode : ℕ)
      → IsSound s
      → 1 ≤ mode
      → mode ≤ 4
      → (s.exit_flag ≡ true) ⊎ (curses_on calls ≡ draws mode)
      → IsSound (record s { calls = calls; keyboard_mode = mode })
  entered-IsSound s calls mode h low high e = record {
    speed_ok = h.speed_ok;
    delay_ok = h.delay_ok;
    mode_low = low;
    mode_high = high;
    screen = e;
  }

pub some_inj : {A : Type 0} {a b : A} → some a ≡ some b → a ≡ b
some_inj h = cc
