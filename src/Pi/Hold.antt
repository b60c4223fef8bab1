-- ===== src/Pi/Hold.antt =====
-- What `keypressControl` (RPi/alex-pi.cpp) does when a key goes up or down.
use cg2111a_b.Base.{ℕ, ◌≡◌, refl, some, ◌>>=◌, true, false}
use cg2111a_b.Base.Int.{pos, ◌≤ℤ◌}
use cg2111a_b.Pi.{Pi, World, command_stop, emit, cout}
use cg2111a_b.Pi.Send.{case_of}
use cg2111a_b.Pi.Keys.{key_up, key_down, Keys, is_quiet, on_key_up, on_key_down, on_event, polled}
use cg2111a_b.Pi.Params.{IsStack}
use cg2111a_b.Pi.Requests.{Sends, send_command-Effect}

module _ (w : World) (key_name : ℕ → ℕ) where
  open w use {Float, stack}

  -- While a key is held, a release of a key that is not one of the quiet ones sends exactly one
  -- stop packet, of the type of the mode; no key counts as held after it.
  pub key_up_stops :
      (key : ℕ) (k : Keys) (s : Pi Float)
      → ((t : Pi Float) → IsStack (stack t))
      → pos 0 ≤ℤ s.fd
      → k.key_already_pressed ≡ true
      → is_quiet key ≡ false
      → (s' : Pi Float) × (on_event w key_name (key_up key) k s
          ≡ some (record k { key_already_pressed = false }, s'))
        × Sends s.keyboard_mode command_stop s s'
  unfolding on_event on_key_up case_of
  key_up_stops key k s stacks port held loud =
      let (s', sent, effect, port') =
        send_command-Effect w stacks b'o' (emit (cout "car stopped\n") (polled s)) port in
      (
        s',
        rw (held, loud, sent) refl,
        record {
          slot = effect.slot;
          packet = effect.packet;
          slot_shape = effect.slot_shape;
          packet_shape = effect.packet_shape;
          kind = effect.kind;
          command = effect.command;
          wire = effect.wire;
        },
      )

  -- While a key is held, a release of a quiet key makes the release of any other key that follows it send
  -- nothing: the two leave everything but the two flags as it was.
  pub quiet_up_loses_stop :
      (quiet key : ℕ) (k : Keys) (s : Pi Float)
      → k.key_already_pressed ≡ true
      → is_quiet quiet ≡ true
      → (on_event w key_name (key_up quiet) k s >>= λ r. on_event w key_name (key_up key) r.0 r.1)
        ≡ some (record k { key_already_pressed = false }, polled s)
  unfolding on_event on_key_up
  quiet_up_loses_stop quiet key k s held e = rw (held, e) refl

  -- A key that goes down while another is held does nothing.
  pub key_down_held :
      (key : ℕ) (k : Keys) (s : Pi Float)
      → k.key_already_pressed ≡ true
      → on_event w key_name (key_down key) k s ≡ some (k, polled s)
  unfolding on_event on_key_down
  key_down_held key k s held = rw held refl
