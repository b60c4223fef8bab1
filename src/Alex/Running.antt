-- ===== src/Alex/Running.antt =====
-- The firmware from `setup` on (alex/alex.ino): interrupts of the wheels and turns of `loop` that
-- find bytes, in any order.
use cg2111a_b.Base.{
  ap, ◌++◌, none, ◌⊎◌, inl, inr, Option-cases, Bool-cases, ℕ, ◌≤◌, ◌≡◌, refl, arith, List, [], ◌∷◌,
  Option, some, ◌>>=◌, length, ◌==◌, le→leb, Ensures-at, All,
}
use cg2111a_b.Memory.{overwrite}
use cg2111a_b.Packet.{Packet}
use cg2111a_b.Serialize.{
  packet_size, Result, packet_ok, packet_bad, packet_checksum_bad, packet_incomplete,
  packet_complete,
}
use cg2111a_b.Alex.{Alex, World}
use cg2111a_b.Alex.Encoders.{left_isr, right_isr, clear_counters}
use cg2111a_b.Alex.Sensors.{sensor_out, setup_ultrasonic, setup_colour_sensor}
use cg2111a_b.Alex.Main.{
  globals, setup, setup_eint, enable_pullups, loop, read_packet, read_serial, answer,
  avoid_collision, check_distance, check_turn,
}
use cg2111a_b.Alex.Answers.{handle_packet-Answers}
use cg2111a_b.Packet.Layout.{IsPacket}
use cg2111a_b.Alex.Typed.{
  avoid_collision-IsTyped, check_distance-IsTyped, check_turn-IsTyped, IsWord, IsTyped,
  left_isr-IsTyped, right_isr-IsTyped,
}
use cg2111a_b.Alex.Ranges.{read_packet-IsTyped, loop-IsTyped}

-- An interrupt of a wheel, or a turn of `loop` that finds some bytes.
pub data Moment : Type 0 where
  left_edge right_edge : Moment
  finds : List ℕ → Moment

abbrev pub Fits : Moment → Type 0
Fits (finds bytes) = length bytes ≤ packet_size
Fits _ = Unit

module _ (w : World) where
  open w use {Receiver}

  abbrev pub pass : Moment → Alex Receiver → Option (Alex Receiver)
  pass left_edge s = some (left_isr w s)
  pass right_edge s = some (right_isr s)
  pass (finds bytes) s = loop w bytes s

  unfoldable pub run_moments : List Moment → Alex Receiver → Option (Alex Receiver)
  run_moments [] s = some s
  run_moments (m ∷ ms) s = do s' ← pass m s; run_moments ms s'

  -- What `loop` reads its packet with: the state after its checks.
  abbrev pub checked : Alex Receiver → Alex Receiver
  checked s = check_turn w (check_distance w (avoid_collision w s))

  -- The call of the library's `deserialize` in a turn that finds `bytes` faults.
  abbrev pub LibraryFaults : List ℕ → Alex Receiver → Type 0
  LibraryFaults bytes s =
      let t = checked s in
      w.deserialize t.receiver (overwrite (w.buffer t) bytes) (length bytes) (w.packet t) ≡ none

  -- The run of `ms` comes to such a call.
  pub record Breaks (ms : List Moment) (s : Alex Receiver) : Type 0 where
    pub before : List Moment
    pub bytes : List ℕ
    pub after : List Moment
    pub reached : Alex Receiver
    pub split : ms ≡ before ++ (finds bytes ∷ after)
    pub run : run_moments before s ≡ some reached
    pub fault : LibraryFaults bytes reached

setup-IsTyped : {R : Type 0} (r : R) (portd ddrd : ℕ) → IsTyped (setup (globals r portd ddrd))
unfolding setup setup_eint enable_pullups setup_ultrasonic setup_colour_sensor clear_counters
setup-IsTyped r portd ddrd = ground arith

module _ (w : World) (words : (x : w.Float) → IsWord (w.word_of x)) (hi : ℕ)
    (high : (s : Alex w.Receiver) → w.pulse s sensor_out ≤ hi) (short : hi ≤ 6553)
    (packets : (s : Alex w.Receiver) → IsPacket (w.packet s)) where
  open w use {Receiver}

  answer_defined :
      (r : Result) (p : Packet) (s : Alex Receiver)
      → IsTyped s
      → (s' : Alex Receiver) × (answer w r p s ≡ some s')
  unfolding answer
  answer_defined packet_ok p s h =
      let (s', run, answered) = handle_packet-Answers w hi high short packets p s h in (s', run)
  answer_defined packet_bad p s h = (_, refl)
  answer_defined packet_checksum_bad p s h = (_, refl)
  answer_defined packet_incomplete p s h = (_, refl)
  answer_defined packet_complete p s h = (_, refl)

  read_packet_defined :
      (bytes : List ℕ) (old : Packet) (s : Alex Receiver)
      → length bytes ≤ packet_size
      → ((r : Result × Packet × Alex Receiver) × (read_packet w bytes old s ≡ some r))
        ⊎ (w.deserialize s.receiver (overwrite (w.buffer s) bytes) (length bytes) old ≡ none)
  unfolding read_packet read_serial
  read_packet_defined bytes old s fits =
      let called = w.deserialize s.receiver (overwrite (w.buffer s) bytes) (length bytes) old in
      rw (le→leb (length bytes) packet_size fits) (elim (Option-cases called) [
        | inl e ↦ inr e
        | inr ((receiver', packet', result), e) ↦ rw e (
            inl (elim (Bool-cases (length bytes == 0)) [
              | inl empty ↦ rw empty (_, refl)
              | inr some_bytes ↦ rw some_bytes (_, refl)
            ]))
      ])

  loop_found :
      (bytes : List ℕ) (s : Alex Receiver) (r : Result × Packet × Alex Receiver)
      (s' : Alex Receiver)
      → read_packet w bytes (w.packet (checked w s)) (checked w s) ≡ some r
      → answer w r.0 r.1 r.2 ≡ some s'
      → loop w bytes s ≡ some s'
  unfolding loop
  loop_found bytes s r s' found run = rw found run

  loop_defined :
      (bytes : List ℕ) (s : Alex Receiver)
      → length bytes ≤ packet_size
      → IsTyped s
      → ((s' : Alex Receiver) × (loop w bytes s ≡ some s')) ⊎ LibraryFaults w bytes s
  loop_defined bytes s fits h =
      let t = checked w s in
      let k =
        check_turn-IsTyped w words _
          (check_distance-IsTyped w words _ (avoid_collision-IsTyped w words s h)) in
      elim (read_packet_defined bytes (w.packet t) t fits) [
        | inr fault ↦ inr fault
        | inl (r, found) ↦
            let typed =
              Ensures-at (λ (q : Result × Packet × Alex Receiver). IsTyped q.2)
                (read_packet w bytes (w.packet t) t) r found
                (read_packet-IsTyped w words bytes (w.packet t) t k) in
            let (s', run) = answer_defined r.0 r.1 r.2 typed in
            inl (s', loop_found bytes s r s' found run)
      ]

  -- One more moment before the rest.
  abbrev Goes : List Moment → Alex Receiver → Type 0
  Goes ms s = ((s' : Alex Receiver) × (run_moments w ms s ≡ some s') × IsTyped s') ⊎ Breaks w ms s

  after_one :
      (m : Moment) (ms : List Moment) (s s1 : Alex Receiver)
      → pass w m s ≡ some s1
      → Goes ms s1
      → Goes (m ∷ ms) s
  unfolding run_moments
  after_one m ms s s1 step (inl (s', rest, h)) = inl (s', rw step rest, h)
  after_one m ms s s1 step (inr b) = inr (record {
    before = m ∷ b.before;
    bytes = b.bytes;
    after = b.after;
    reached = b.reached;
    split = ap (λ l. m ∷ l) b.split;
    run = rw step b.run;
    fault = b.fault;
  })

  run_moments-IsTyped : (ms : List Moment) (s : Alex Receiver) → All Fits ms → IsTyped s → Goes ms s
  unfolding run_moments
  run_moments-IsTyped [] s fits h = inl (s, refl, h)
  run_moments-IsTyped (left_edge ∷ ms) s fits h =
      after_one left_edge ms s (left_isr w s) refl
        (run_moments-IsTyped ms (left_isr w s) fits.1 (left_isr-IsTyped w words s h))
  run_moments-IsTyped (right_edge ∷ ms) s fits h =
      after_one right_edge ms s (right_isr s) refl
        (run_moments-IsTyped ms (right_isr s) fits.1 (right_isr-IsTyped s h))
  run_moments-IsTyped (finds bytes ∷ ms) s fits h = elim (loop_defined bytes s fits.0 h) [
    | inl (s1, run) ↦
        after_one (finds bytes) ms s s1 run
          (run_moments-IsTyped ms s1 fits.1 (loop-IsTyped w words bytes s s1 h run))
    | inr fault ↦ inr (record {
      before = [];
      bytes = bytes;
      after = ms;
      reached = s;
      split = refl;
      run = refl;
      fault = fault;
    })
  ]

  -- From `setup` on, whatever bytes the turns of `loop` find, up to 140 in each, and whatever
  -- interrupts come between them, if no pulse of the colour sensor is longer than 6553 and the
  -- conversions of `float` give words: nothing faults and every global is in the range of its type,
  -- or one of the turns comes to a call of the library's `deserialize` that faults.
  pub setup_then-IsTyped :
      (r : Receiver) (portd ddrd : ℕ) (ms : List Moment)
      → All Fits ms
      → ((s' : Alex Receiver) × (run_moments w ms (setup (globals r portd ddrd)) ≡ some s')
          × IsTyped s')
        ⊎ Breaks w ms (setup (globals r portd ddrd))
  setup_then-IsTyped r portd ddrd ms fits =
      run_moments-IsTyped ms (setup (globals r portd ddrd)) fits (setup-IsTyped r portd ddrd)
