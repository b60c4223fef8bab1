-- ===== src/Pi/Threads/Invariant.antt =====
-- What holds of the program on the Raspberry Pi in every state that its threads reach.
use cg2111a_b.Base.{ℕ, ◌+◌, ◌*◌, ◌≡◌, refl, some, List, false, Ensures-at}
use cg2111a_b.Base.Int.{pos, ◌≤ℤ◌}
use cg2111a_b.Pi.{Pi, Event, World}
use cg2111a_b.Pi.Keys.{on_event}
use cg2111a_b.Pi.Sound.{IsSound, draws, curses_on, drawn-IsSound}
use cg2111a_b.Pi.Steady.{params_control-IsSound, pressed-IsSound, timed-IsSound}
use cg2111a_b.Pi.Quiet.{IsQuiet, IsQuiet-IsSound, handled-IsQuiet, packet_error-IsQuiet}
use cg2111a_b.Pi.Threads.{
  Config, between, holding, Step, typed, press, adjust, open_window, event, draw, close_window,
  receive_between, receive_holding, fail_between, fail_holding, Reach, here, further,
}
use cg2111a_b.Pi.Serial.{Ports}
use cg2111a_b.Pi.Main.{globals, boot}
use cg2111a_b.Pi.Boot.{boot-IsSound}
use cg2111a_b.Pi.Threads.Bound.{delay_of, turns, boot-AtMost}
use cg2111a_b.Pi.Threads.Plain.{IsHeld}
use cg2111a_b.Pi.Threads.Holding.{AreNames, on_event-IsHeld}

-- Sound, and in a mode without curses while a window is open.
abbrev pub Good : {Float : Type 0} → Config Float → Type 0
Good (between s) = IsSound s
Good (holding k s) = IsHeld s

quiet-IsHeld : {Float : Type 0} (s s' : Pi Float) → IsQuiet s s' → IsHeld s → IsHeld s'
quiet-IsHeld s s' q h = record {
  sound = IsQuiet-IsSound s s' q h.sound;
  plain = rw q.keyboard_mode h.plain;
}

redrawn-IsHeld :
    {Float : Type 0} (s : Pi Float) (calls : List (Event Float))
    → curses_on calls ≡ curses_on s.calls
    → IsHeld s
    → IsHeld (record s { calls = calls })
redrawn-IsHeld s calls e h = record { sound = drawn-IsSound s calls h.sound e; plain = h.plain }

plain_mode : (mode : ℕ) → mode ≡ 2 → draws mode ≡ false
plain_mode mode e = rw e refl

module _ (w : World) (key_name : ℕ → ℕ) (names : AreNames key_name) where
  open w use {Float}

  Step-Good : (c d : Config Float) → Step w key_name c d → Good c → Good d
  Step-Good _ _ (typed chars rest s s' exit mode run) h =
      params_control-IsSound w chars rest s s' run h
  Step-Good _ _ (press c s s' exit mode run) h = pressed-IsSound w c s s' run h
  Step-Good _ _ (adjust c s s' exit mode run) h = timed-IsSound w c s s' run h
  Step-Good _ _ (open_window s exit mode) h =
      redrawn-IsHeld s _ refl (record { sound = h; plain = plain_mode s.keyboard_mode mode })
  Step-Good _ _ (event e k k' s s' stop run) h =
      Ensures-at (λ r. IsHeld r.1) (on_event w key_name e k s) (k', s') run
        (on_event-IsHeld w key_name names e k s h)
  Step-Good _ _ (draw k s quit) h = redrawn-IsHeld s _ refl h
  Step-Good _ _ (close_window k s quit) h = drawn-IsSound s _ h.sound refl
  Step-Good _ _ (receive_between p s s' run) h =
      IsQuiet-IsSound s s' (handled-IsQuiet w p s s' run) h
  Step-Good _ _ (receive_holding p k s s' run) h =
      quiet-IsHeld s s' (handled-IsQuiet w p s s' run) h
  Step-Good _ _ (fail_between r s) h = IsQuiet-IsSound s _ (packet_error-IsQuiet r s) h
  Step-Good _ _ (fail_holding r k s) h = quiet-IsHeld s _ (packet_error-IsQuiet r s) h

  pub Reach-Good : (c d : Config Float) → Reach w key_name c d → Good c → Good d
  Reach-Good c _ here h = h
  Reach-Good c e (further d _ r step) h = Step-Good d e step (Reach-Good c d r h)

  -- However the turns of the two threads interleave after `main` has set up the port and greeted the
  -- Arduino, the speed is a multiple of 5 from 0 to 100, the delay a multiple of 50 that is not
  -- negative and at most 150 and 50 more for each turn taken, the mode one of the four, and, until
  -- the program is told to exit, the curses screen is on exactly in the two modes that draw on it;
  -- in the loops of `keypressControl` the mode is one of the other two. The condition is that SDL
  -- gives no name that begins with 3 or 4 to any other key than those two.
  pub Reach-boot :
      (d : Ports) (s : Pi Float) (e : Config Float)
      → boot w d globals ≡ some s
      → (r : Reach w key_name (between s) e)
      → Good e × (delay_of e ≤ℤ pos (150 + 50 * turns w key_name r))
  Reach-boot d s e run r =
      (Reach-Good (between s) e r (boot-IsSound w d s run), boot-AtMost w key_name d s e r run)
