-- ===== src/Pi/Threads.antt =====
-- The two threads of the program on the Raspberry Pi: the turns of `main` and of its controls
-- (RPi/alex-pi.cpp) and those of `receiveThread` (RPi/usart.cpp), in any order.
pub mod Plain
pub mod Holding
pub mod Invariant
pub mod Delay
pub mod Bound
pub mod Turns
pub mod Receiving
mod Tests
use cg2111a_b.Base.{
  ℕ, ◌≡◌, refl, List, [], ◌∷◌, Option, some, none, ◌>>=◌, >>=-eq-some, Bool, true, false,
  if◌then◌else◌, ◌==◌,
}
use cg2111a_b.Packet.{Packet}
use cg2111a_b.Serialize.{Result}
use cg2111a_b.Pi.{Pi, World, Progress, waits, went}
use cg2111a_b.Pi.Handlers.{handle_packet, packet_error}
use cg2111a_b.Pi.Control.{params_control, pressed, timed}
use cg2111a_b.Pi.Keys.{SdlEvent, Keys, no_keys, on_event, rendered, opened, closed}

-- Where the main thread is: between two controls, or in the loops of `keypressControl`.
pub data Config (Float : Type 0) : Type 0 where
  between : Pi Float → Config Float
  holding : Keys → Pi Float → Config Float

module _ (w : World) (key_name : ℕ → ℕ) where
  open w use {Float}

  -- A turn of one of the threads.
  pub data Step : Config Float → Config Float → Type 0 where
    typed :
        (chars rest : List ℕ) (s s' : Pi Float)
        → s.exit_flag ≡ false
        → s.keyboard_mode ≡ 1
        → params_control w chars s ≡ some (went rest s')
        → Step (between s) (between s')
    press :
        (c : ℕ) (s s' : Pi Float)
        → s.exit_flag ≡ false
        → s.keyboard_mode ≡ 3
        → pressed w c s ≡ some s'
        → Step (between s) (between s')
    adjust :
        (c : ℕ) (s s' : Pi Float)
        → s.exit_flag ≡ false
        → s.keyboard_mode ≡ 4
        → timed w c s ≡ some s'
        → Step (between s) (between s')
    open_window :
        (s : Pi Float)
        → s.exit_flag ≡ false
        → s.keyboard_mode ≡ 2
        → Step (between s) (holding no_keys (opened s))
    event :
        (e : SdlEvent) (k k' : Keys) (s s' : Pi Float)
        → k.stop ≡ false
        → on_event w key_name e k s ≡ some (k', s')
        → Step (holding k s) (holding k' s')
    draw : (k : Keys) (s : Pi Float) → k.quit ≡ false → Step (holding k s) (holding k (rendered s))
    close_window :
        (k : Keys) (s : Pi Float)
        → k.quit ≡ true
        → Step (holding k s) (between (closed (rendered s)))
    receive_between :
        (p : Packet) (s s' : Pi Float)
        → handle_packet w p s ≡ some s'
        → Step (between s) (between s')
    receive_holding :
        (p : Packet) (k : Keys) (s s' : Pi Float)
        → handle_packet w p s ≡ some s'
        → Step (holding k s) (holding k s')
    fail_between : (r : Result) (s : Pi Float) → Step (between s) (between (packet_error r s))
    fail_holding :
        (r : Result) (k : Keys) (s : Pi Float) → Step (holding k s) (holding k (packet_error r s))

  pub data Reach (c : Config Float) : Config Float → Type 0 where
    here : Reach c c
    further : (d e : Config Float) → Reach c d → Step d e → Reach c e

  -- Reachability is transitive.
  pub joined : {c d e : Config Float} → Reach c d → Reach d e → Reach c e
  joined r here = r
  joined r (further d e r' step) = further d e (joined r r') step
