-- ===== src/Serialize/Calls.antt =====
-- One call of `deserialize` (RPi/serialize.cpp) in a run: what it does to the queue, and what it
-- reports when the queue's first packet is a good one.
use cg2111a_b.Base.{
  ℕ, ◌≤◌, ◌<◌, ◌≡◌, refl, arith, List, ◌++◌, some, length, take, drop, length-append, length-take,
  Bool-cases, inl, inr, append-nil,
}
use cg2111a_b.Memory.{overwrite}
use cg2111a_b.Serialize.{
  Comms, Receiver, Result, packet_size, max_data_size, packet_ok, packet_complete,
  packet_incomplete, deserialize, extract,
}
use cg2111a_b.Serialize.Pending.{pending, IsValid, feed_short, feed_long}
use cg2111a_b.Serialize.Refinement.{assemble-Refines}
use cg2111a_b.Serialize.Frame.{IsComms}
use cg2111a_b.Serialize.Roundtrip.{frame, extract-frame}

-- Fewer bytes than a packet wait between two calls.
pub length-pending-lt : (r : Receiver) → IsValid r → length (pending r) < packet_size
length-pending-lt r v = elim (Bool-cases r.assembler.leftover_flag) [
  | inl f ↦ rw f (
      omega (
        arith,
        v.flag_set f,
        length-append (take r.assembler.counter r.private_buffer)
            (take r.assembler.leftover_count r.assembler.leftover_buffer),
        length-take r.assembler.counter r.private_buffer,
        length-take r.assembler.leftover_count r.assembler.leftover_buffer,
        v,
      ))
  | inr f ↦
      rw f (rw append-nil (omega (arith, v, length-take r.assembler.counter r.private_buffer)))
]

-- The outcome of a call, with the queue that it leaves.
pub record Called (r : Receiver) (input rest output : List ℕ) (queue output' : List ℕ)
    (result : Result) : Type 0 where
  pub after : Receiver
  pub call : deserialize r (input ++ rest) (length input) output ≡ some (after, output', result)
  pub valid : IsValid after
  pub left : pending after ≡ queue

module _ (r : Receiver) (input rest output : List ℕ) (v : IsValid r)
    (short : length input ≤ packet_size) where
  -- While the queue is shorter than a packet the call only adds to it.
  pub deserialize_waits :
      length (pending r ++ input) < packet_size
      → Called r input rest output (pending r ++ input) output packet_incomplete
  unfolding deserialize
  deserialize_waits h =
      let (r', result, call, done) = assemble-Refines r input rest v short in
      let spec = feed_short (pending r ++ input) h in
      let code : result ≡ packet_incomplete = rw spec at done.code in
      record {
        after = r';
        call = rw call (rw code);
        valid = done.valid;
        left = rw spec at done.queue;
      }

  -- As soon as the queue has a packet's worth, its first bytes are taken for a packet.
  pub deserialize_extracts :
      (block output' : List ℕ) (result : Result)
      → packet_size ≤ length (pending r ++ input)
      → take packet_size (pending r ++ input) ≡ block
      → extract block output ≡ some (output', result)
      → Called r input rest output (drop packet_size (pending r ++ input)) output' result
  unfolding deserialize
  deserialize_extracts block output' result h first got =
      let (r', code', call, done) = assemble-Refines r input rest v short in
      let spec = feed_long (pending r ++ input) h in
      let code : code' ≡ packet_complete = rw spec at done.code in
      let held : some (take packet_size (pending r ++ input)) ≡ some r'.private_buffer =
        rw spec at (done.packet code) in
      let buffer : r'.private_buffer ≡ block = cc in
      record {
        after = r';
        call = rw call (rw code (rw (buffer, got) refl));
        valid = done.valid;
        left = rw spec at done.queue;
      }

  -- As soon as a packet made by `serialize` is at its front, it is delivered.
  pub deserialize_delivers :
      (c : Comms) (structure : List ℕ)
      → IsComms c
      → length structure ≤ max_data_size
      → length structure ≤ length output
      → packet_size ≤ length (pending r ++ input)
      → take packet_size (pending r ++ input) ≡ frame c structure
      → Called r input rest output
          (drop packet_size (pending r ++ input))
          (overwrite output structure)
          packet_ok
  deserialize_delivers c structure shape fits room h first =
      deserialize_extracts (frame c structure) (overwrite output structure) packet_ok h first
        (extract-frame c structure output shape fits room)
