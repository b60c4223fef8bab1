-- ===== src/Pi/Presses.antt =====
-- What a key that is held down makes `PressAndPress` of RPi/alex-pi.cpp do.
mod Tests
use cg2111a_b.Base.{ℕ, ◌≡◌, ◌≢◌, sym, Option, some, none, ◌&&◌, not, false}
use cg2111a_b.Pi.{Pi, Progress}

-- Not one of the keys that may repeat.
pub record IsPlain (c : ℕ) : Type 0 where
  pub not_comma : c ≢ b','
  pub not_period : c ≢ b'.'
  pub not_v : c ≢ b'v'
  pub not_u : c ≢ b'u'

-- No key yet, or a plain key again.
abbrev pub IsRepeat : ℕ → Option ℕ → Type 0
IsRepeat c none = Unit
IsRepeat c (some d) = (d ≡ c) × IsPlain d
