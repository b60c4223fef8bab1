-- ===== src/Pi/Threads/Holding.antt =====
-- What `keypressControl` (RPi/alex-pi.cpp) keeps while its loops run.
use cg2111a_b.Base.{
  ℕ, ◌≡◌, ◌≢◌, refl, ◌∙◌, some, ◌>>=◌, Bool-cases, inl, inr, arith, [], ◌∷◌, Ensures, Ensures-if,
  Ensures->>=, Ensures-of,
}
use cg2111a_b.Base.Int.{leb_ℤ, eqb_ℤ, ◌+ℤ◌, pos}
use cg2111a_b.Pi.{Pi, Event, World, emit, printf, cout, char}
use cg2111a_b.Pi.Prints.{increase_speedf, decrease_speedf, raise_speed, lower_speed}
use cg2111a_b.Pi.Send.{send_command}
use cg2111a_b.Pi.Keys.{
  SdlEvent, quit_event, key_up, key_down, other_event, Keys, KeyCase, leave, slower, faster, send,
  is_quiet, key_case, on_key_up, on_key_down, run_key, on_event, polled,
}
use cg2111a_b.Pi.Sound.{curses_on, kept-IsSound, drawn-IsSound}
use cg2111a_b.Pi.Steady.{raise_speed-IsSound, lower_speed-IsSound}
use cg2111a_b.Pi.Threads.Plain.{IsHeld, send_command-IsHeld}

-- `SDL_GetKeyName` begins with a digit 3 or 4 for the keys 3 and 4 only; on the keys 1, 3 and 4 the
-- code does not call it.
abbrev pub AreNames : (ℕ → ℕ) → Type 0
AreNames key_name = (key : ℕ) → key_case key ≡ send → (key_name key ≢ b'3') × (key_name key ≢ b'4')

module _ (w : World) (key_name : ℕ → ℕ) (names : AreNames key_name) where
  open w use {Float}

  abbrev Held : Keys × Pi Float → Type 0
  Held r = IsHeld r.1

  shown-IsHeld :
      (s : Pi Float) (e : Event Float)
      → curses_on (e ∷ s.calls) ≡ curses_on s.calls
      → IsHeld s
      → IsHeld (emit e s)
  shown-IsHeld s e quiet h = record { sound = drawn-IsSound s _ h.sound quiet; plain = h.plain }

  slower-IsHeld : (s : Pi Float) → IsHeld s → IsHeld (decrease_speedf s)
  unfolding decrease_speedf lower_speed
  slower-IsHeld s h = record {
    sound = lower_speed-IsSound printf s (λ f a c. refl) h.sound;
    plain = elim (Bool-cases (eqb_ℤ s.speed (pos 0))) [
      | inl e ↦ rw e h.plain
      | inr e ↦ rw e h.plain
    ];
  }

  faster-IsHeld : (s : Pi Float) → IsHeld s → IsHeld (increase_speedf s)
  unfolding increase_speedf raise_speed
  faster-IsHeld s h = record {
    sound = raise_speed-IsSound printf s (λ f a c. refl) h.sound;
    plain = elim (Bool-cases (leb_ℤ (s.speed +ℤ pos 5) (pos 100))) [
      | inl e ↦ rw e h.plain
      | inr e ↦ rw e h.plain
    ];
  }

  left-IsHeld : (s : Pi Float) → IsHeld s → IsHeld (record s { keyboard_mode = 1 })
  left-IsHeld s h = record {
    sound = record {
      speed_ok = h.sound.speed_ok;
      delay_ok = h.sound.delay_ok;
      mode_low = omega arith;
      mode_high = omega arith;
      screen = elim h.sound.screen [ inl x ↦ inl x | inr d ↦ inr (d ∙ h.plain) ];
    };
    plain = refl;
  }

  named-IsHeld :
      (c : ℕ) (k : Keys) (s : Pi Float)
      → c ≢ b'3'
      → c ≢ b'4'
      → IsHeld s
      → Ensures Held (send_command w c s >>= λ s'. some (k, s'))
  named-IsHeld c k s three four h =
      Ensures->>= IsHeld Held (send_command w c s) _
        (Ensures-of IsHeld (send_command w c s)
          (λ s' run. send_command-IsHeld w c s s' three four run h))
        (λ s' h'. h')

  run_key-IsHeld :
      (kc : KeyCase) (key : ℕ) (k : Keys) (s : Pi Float)
      → key_case key ≡ kc
      → IsHeld s
      → Ensures Held (run_key w key_name kc key k s)
  unfolding run_key
  run_key-IsHeld leave key k s e h = left-IsHeld s h
  run_key-IsHeld slower key k s e h = slower-IsHeld s h
  run_key-IsHeld faster key k s e h = faster-IsHeld s h
  run_key-IsHeld send key k s e h =
      named-IsHeld (key_name key) k _ (names key e).0 (names key e).1
        (shown-IsHeld s (printf "send command : %c\n" (char (key_name key) ∷ [])) refl h)

  on_key_up-IsHeld :
      (key : ℕ) (k : Keys) (s : Pi Float) → IsHeld s → Ensures Held (on_key_up w key_name key k s)
  unfolding on_key_up
  on_key_up-IsHeld key k s h =
      Ensures-if Held k.key_already_pressed _ _
        (Ensures-if Held (is_quiet key) _ _ h (
          named-IsHeld b'o' _ _ (ground arith) (ground arith)
            (shown-IsHeld s (cout "car stopped\n") refl h)))
        h

  on_key_down-IsHeld :
      (key : ℕ) (k : Keys) (s : Pi Float) → IsHeld s → Ensures Held (on_key_down w key_name key k s)
  unfolding on_key_down
  on_key_down-IsHeld key k s h =
      let shown = shown-IsHeld s _ refl h in
      Ensures-if Held k.key_already_pressed _ _ h (
        Ensures-if Held s.clear_to_send_command _ _
          (run_key-IsHeld (key_case key) key _ _ refl shown)
          (Ensures-if Held k.informed _ _ shown (shown-IsHeld _ _ refl shown)))

  polled-IsHeld : (s : Pi Float) → IsHeld s → IsHeld (polled s)
  polled-IsHeld s h = record {
    sound = kept-IsSound s _ refl refl refl refl refl h.sound;
    plain = h.plain;
  }

  pub on_event-IsHeld :
      (e : SdlEvent) (k : Keys) (s : Pi Float) → IsHeld s → Ensures Held (on_event w key_name e k s)
  unfolding on_event
  on_event-IsHeld quit_event k s h = polled-IsHeld s h
  on_event-IsHeld (key_up key) k s h = on_key_up-IsHeld key k _ (polled-IsHeld s h)
  on_event-IsHeld (key_down key) k s h = on_key_down-IsHeld key k _ (polled-IsHeld s h)
  on_event-IsHeld other_event k s h = polled-IsHeld s h
