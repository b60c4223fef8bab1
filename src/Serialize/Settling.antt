-- ===== src/Serialize/Settling.antt =====
-- The first half of `assemble` (RPi/serialize.cpp): the leftovers move to the front of the buffer.
use cg2111a_b.Base.{
  ℕ, ◌+◌, ◌-◌, ◌<◌, ◌≡◌, refl, sym, ap, ◌∙◌, arith, true, false, inl, inr, List, some, Bool-cases,
  length, take, drop, length-append, length-take, append-nil,
}
use cg2111a_b.Memory.Splice.{splice, copy_lem, length-splice, take-splice}
use cg2111a_b.Serialize.{Receiver, packet_size, copy_leftovers}
use cg2111a_b.Serialize.Pending.{pending, IsValid}

-- After "Copy in leftovers": the whole queue lies at the front of the private buffer.
pub record Settled (queue : List ℕ) (r : Receiver) : Type 0 where
  pub private_size : length r.private_buffer ≡ packet_size
  pub leftover_size : length r.assembler.leftover_buffer ≡ packet_size
  pub counter_below : r.assembler.counter < packet_size
  pub emptied : r.assembler.leftover_count ≡ 0
  pub lowered : r.assembler.leftover_flag ≡ false
  pub front : take r.assembler.counter r.private_buffer ≡ queue
  pub size : length queue ≡ r.assembler.counter

copied : Receiver → Receiver
copied r =
    let a = r.assembler in
    record {
      private_buffer =
          splice r.private_buffer a.counter (take a.leftover_count (drop 0 a.leftover_buffer));
      assembler = record a {
        counter = a.counter + a.leftover_count;
        leftover_flag = false;
        leftover_count = a.leftover_count - a.leftover_count;
      };
    }

abbrev kept : Receiver → List ℕ
kept r = take r.assembler.leftover_count r.assembler.leftover_buffer

length-kept : (r : Receiver) → IsValid r → length (kept r) ≡ r.assembler.leftover_count
length-kept r v =
    omega (arith, v, length-take r.assembler.leftover_count r.assembler.leftover_buffer)

copied-Settled :
    (r : Receiver) → IsValid r → r.assembler.leftover_flag ≡ true → Settled (pending r) (copied r)
unfolding copied
copied-Settled r v f = record {
  private_size = length-splice r.private_buffer r.assembler.counter _ ∙ v.private_size;
  leftover_size = v.leftover_size;
  counter_below = omega (arith, v.flag_set f);
  emptied = omega arith;
  lowered = refl;
  front = rw f (
      ap
        (λ (t : ℕ).
          take (r.assembler.counter + t) (splice r.private_buffer r.assembler.counter (kept r)))
        (sym (length-kept r v))
      ∙ take-splice r.private_buffer r.assembler.counter (kept r)
          (omega (arith, v.flag_set f, length-kept r v)));
  size = rw f (
      length-append (take r.assembler.counter r.private_buffer) (kept r)
      ∙ omega (arith, length-kept r v, length-take r.assembler.counter r.private_buffer));
}

pub copy_leftovers-Settled :
    (r : Receiver)
    → IsValid r
    → (r1 : Receiver) × (copy_leftovers r ≡ some r1) × Settled (pending r) r1
unfolding copy_leftovers copied
copy_leftovers-Settled r v = elim (Bool-cases r.assembler.leftover_flag) [
  | inl f ↦ (
    copied r,
    ground (
      arith,
      copy_lem r.assembler.leftover_buffer r.assembler.leftover_count 0 r.private_buffer
          r.assembler.counter,
    ),
    copied-Settled r v f,
  )
  | inr f ↦ (
    r,
    rw f,
    record {
      private_size = v.private_size;
      leftover_size = v.leftover_size;
      counter_below = v.counter_below;
      emptied = v.flag_clear f;
      lowered = f;
      front = rw f (sym (append-nil _));
      size = rw f (rw append-nil (omega (arith, length-take r.assembler.counter r.private_buffer)));
    },
  )
]
