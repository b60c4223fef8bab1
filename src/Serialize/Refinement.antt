-- ===== src/Serialize/Refinement.antt =====
-- `assemble` (RPi/serialize.cpp) against the abstract queue.
use cg2111a_b.Base.{
  ℕ, ◌+◌, ◌-◌, ◌≤◌, ◌<◌, ◌≡◌, refl, sym, ap, ◌∙◌, arith, true, false≢true, List, ◌++◌, some, le→leb,
  lt→leb_false, length, take, drop, length-append, length-take, length-drop, take-append_le,
  drop-append_le, take-append_ge, drop-append_ge, take_all, append-nil,
}
use native.Mathlib.Decide.{dec_le}
use cg2111a_b.Memory.{copy}
use cg2111a_b.Memory.Splice.{splice, copy_lem, length-splice, take-splice}
use cg2111a_b.Serialize.{
  Receiver, Result, packet_size, packet_complete, packet_incomplete, finish, fill, assemble,
}
use cg2111a_b.Serialize.Pending.{pending, IsValid, feed_short, feed_long, Refines}
use cg2111a_b.Serialize.Settling.{Settled, copy_leftovers-Settled}

finish_short :
    (r : Receiver) → r.assembler.counter < packet_size → finish r ≡ (r, packet_incomplete)
unfolding finish
finish_short r h = ground arith

finish_full :
    (r : Receiver)
    → r.assembler.counter ≡ packet_size
    → finish r ≡ (record r { assembler = record (r.assembler) { counter = 0 } }, packet_complete)
unfolding finish
finish_full r h = ground arith

module _ (queue : List ℕ) (r : Receiver) (s : Settled queue r) (input : List ℕ) where
  abbrev c : ℕ
  c = r.assembler.counter

  -- A call that leaves the packet incomplete.
  appended : Receiver
  appended = record {
    private_buffer = splice r.private_buffer c input;
    assembler = record (r.assembler) { counter = c + length input };
  }

  front-splice :
      (bs : List ℕ)
      → c + length bs ≤ packet_size
      → take (c + length bs) (splice r.private_buffer c bs) ≡ queue ++ bs
  front-splice bs h =
      take-splice r.private_buffer c bs (omega (arith, s.private_size)) ∙ ap (λ t. t ++ bs) s.front

  appended-Refines :
      length (queue ++ input) < packet_size → Refines (queue ++ input) appended packet_incomplete
  unfolding appended
  appended-Refines h =
      let fits : c + length input < packet_size =
        omega (arith, length-append queue input, s.size) in
      record {
        valid = record {
          private_size = length-splice r.private_buffer c input ∙ s.private_size;
          leftover_size = s.leftover_size;
          counter_below = fits;
          leftover_below = omega (arith, s.emptied);
          flag_set = λ e. absurd (false≢true (sym s.lowered ∙ e));
          flag_clear = λ e. s.emptied;
        };
        queue =
            rw (s.lowered, feed_short (queue ++ input) h)
              (append-nil _ ∙ front-splice input (omega arith));
        code = rw (feed_short (queue ++ input) h);
        packet = λ e. cc;
      }

  -- A call that completes it.
  abbrev room : ℕ
  room = packet_size - c

  abbrev saved_to : List ℕ
  saved_to = r.assembler.leftover_buffer

  abbrev old : ℕ
  old = r.assembler.leftover_count

  completed : Receiver
  completed = record {
    private_buffer = splice r.private_buffer c (take room input);
    assembler = record (r.assembler) {
      counter = 0;
      leftover_flag = true;
      leftover_count = r.assembler.leftover_count + (length input - room);
      leftover_buffer =
          splice r.assembler.leftover_buffer r.assembler.leftover_count (drop room input);
    };
  }

  completed-Refines :
      packet_size ≤ length (queue ++ input)
      → length input ≤ packet_size
      → Refines (queue ++ input) completed packet_complete
  unfolding completed
  completed-Refines h k =
      let total : packet_size ≤ c + length input =
        omega (arith, length-append queue input, s.size) in
      let cut : packet_size ≡ length queue + room = omega (arith, s.size, s.counter_below) in
      let filled : take packet_size (queue ++ input) ≡ queue ++ take room input =
        ap (λ (t : ℕ). take t (queue ++ input)) cut ∙ take-append_ge queue input room in
      let saved : drop packet_size (queue ++ input) ≡ drop room input =
        ap (λ (t : ℕ). drop t (queue ++ input)) cut ∙ drop-append_ge queue input room in
      let taken : c + length (take room input) ≡ packet_size =
        omega (arith, length-take room input, s.counter_below) in
      let fits : c + length (take room input) ≤ packet_size = omega arith in
      let size : length (splice r.private_buffer c (take room input)) ≡ packet_size =
        length-splice r.private_buffer c (take room input) ∙ s.private_size in
      let full : take (c + length (take room input)) (splice r.private_buffer c (take room input))
          ≡ splice r.private_buffer c (take room input) =
        take_all _ _ (omega arith) in
      record {
        valid = record {
          private_size = length-splice r.private_buffer c _ ∙ s.private_size;
          leftover_size = length-splice r.assembler.leftover_buffer _ _ ∙ s.leftover_size;
          counter_below = omega arith;
          leftover_below = omega (arith, s.emptied, s.counter_below);
          flag_set = λ e. refl;
          flag_clear = λ e. absurd (false≢true (sym e));
        };
        queue = rw (feed_long (queue ++ input) h) (
            ap (λ (t : ℕ). take (old + t) (splice saved_to old (drop room input)))
              (sym (length-drop room input))
            ∙ take-splice saved_to old (drop room input)
                (omega (arith, s.emptied, s.leftover_size, length-drop room input))
            ∙ ap (λ (t : ℕ). take t saved_to ++ drop room input) s.emptied
            ∙ sym saved);
        code = rw (feed_long (queue ++ input) h);
        packet = λ e.
            rw (feed_long (queue ++ input) h)
              (ap some (filled ∙ sym (front-splice (take room input) fits) ∙ full));
      }

  -- The bytes after the input do not matter.
  module _ (rest : List ℕ) where
    copy-input :
        (n : ℕ)
        → n ≤ length input
        → c + n ≤ packet_size
        → copy (input ++ rest) n 0 r.private_buffer c
          ≡ some (splice r.private_buffer c (take n input))
    copy-input n h k =
        copy_lem (input ++ rest) n 0 r.private_buffer c (omega (arith, length-append input rest))
          (omega (arith, s.private_size))
        ∙ ap (λ t. some (splice r.private_buffer c t)) (take-append_le n input rest h)

    fill-appended :
        c + length input < packet_size
        → fill r (input ++ rest) (length input) ≡ some (appended, packet_incomplete)
    unfolding appended fill
    fill-appended h =
        rw
          (
            lt→leb_false packet_size (c + length input) h,
            copy-input (length input) (omega arith) (omega arith),
            take_all (length input) input (omega arith),
          )
          (ap some (finish_short _ h))

    copy-saved :
        packet_size ≤ c + length input
        → length input ≤ packet_size
        → copy (input ++ rest) (length input - room) room saved_to old
          ≡ some (splice saved_to old (drop room input))
    copy-saved h k =
        copy_lem (input ++ rest) (length input - room) room saved_to old
          (omega (arith, length-append input rest, s.counter_below))
          (omega (arith, s.leftover_size, s.emptied, s.counter_below))
        ∙ ap (λ t. some (splice saved_to old t)) exact
      where
        exact : take (length input - room) (drop room (input ++ rest)) ≡ drop room input
        exact = rw (drop-append_le room input rest (omega arith)) (
            take-append_le (length input - room) (drop room input) rest
              (omega (arith, length-drop room input))
            ∙ take_all _ _ (omega (arith, length-drop room input)))

    fill-completed :
        packet_size ≤ c + length input
        → length input ≤ packet_size
        → fill r (input ++ rest) (length input) ≡ some (completed, packet_complete)
    unfolding completed fill
    fill-completed h k =
        rw
          (
            le→leb packet_size (c + length input) h,
            copy-saved h k,
            copy-input room (omega arith) (omega (arith, s.counter_below)),
          )
          (ap some (finish_full _ (omega (arith, s.counter_below))))

-- From a valid state, one call of `assemble` with at most a packet's worth of bytes faults
-- nowhere, keeps the state valid, and does to the queue of undelivered bytes what `feed` does: a
-- packet's worth at the front is given as the packet, and what comes after it waits.
pub assemble-Refines :
    (r : Receiver) (input rest : List ℕ)
    → IsValid r
    → length input ≤ packet_size
    → (r' : Receiver) × (result : Result) × (assemble r (input ++ rest) (length input)
        ≡ some (r', result))
      × Refines (pending r ++ input) r' result
unfolding assemble
assemble-Refines r input rest v short =
    let (r1, e, s) = copy_leftovers-Settled r v in
    let q = pending r in
    let sum = length-append q input in
    elim (dec_le packet_size (length (q ++ input))) [
      | yes h ↦ (
        completed q r1 s input,
        packet_complete,
        rw e (fill-completed q r1 s input rest (omega (arith, s.size, sum)) short),
        completed-Refines q r1 s input h short,
      )
      | no h ↦ (
        appended q r1 s input,
        packet_incomplete,
        rw e (fill-appended q r1 s input rest (omega (arith, s.size, sum))),
        appended-Refines q r1 s input (omega arith),
      )
    ]
