-- ===== src/Serialize/Pending.antt =====
-- What the static variables of `assemble` (RPi/serialize.cpp) stand for: the bytes received and
-- not yet delivered. The abstract view is that queue and one operation on it.
use cg2111a_b.Base.{ℕ, ◌≤◌, ◌<◌, ◌≡◌, true, false, le→leb, lt→leb_false}
use cg2111a_b.Base.{List, [], ◌++◌, Option, none, some, if◌then◌else◌, leb, length, take, drop}
use cg2111a_b.Serialize.{
  Assembler, Receiver, Result, packet_size, packet_complete, packet_incomplete,
}

abbrev pub leftovers : Assembler → List ℕ
leftovers a = if a.leftover_flag then take a.leftover_count a.leftover_buffer else []

abbrev pub pending : Receiver → List ℕ
pending r = take r.assembler.counter r.private_buffer ++ leftovers r.assembler

-- Between two calls.
pub record IsValid (r : Receiver) : Type 0 where
  pub private_size : length r.private_buffer ≡ packet_size
  pub leftover_size : length r.assembler.leftover_buffer ≡ packet_size
  pub counter_below : r.assembler.counter < packet_size
  pub leftover_below : r.assembler.leftover_count < packet_size
  pub flag_set : r.assembler.leftover_flag ≡ true → r.assembler.counter ≡ 0
  pub flag_clear : r.assembler.leftover_flag ≡ false → r.assembler.leftover_count ≡ 0

-- The abstract operation: a queue that has a packet's worth of bytes gives the first packet.
pub record Fed : Type 0 where
  pub packet : Option (List ℕ)
  pub rest : List ℕ

abbrev pub feed : List ℕ → Fed
feed bytes =
    if leb packet_size (length bytes)
    then record { packet = some (take packet_size bytes); rest = drop packet_size bytes }
    else record { packet = none; rest = bytes }

pub feed_short :
    (bytes : List ℕ)
    → length bytes < packet_size
    → feed bytes ≡ record { packet = none; rest = bytes }
feed_short bytes h = rw (lt→leb_false _ _ h)

pub feed_long :
    (bytes : List ℕ)
    → packet_size ≤ length bytes
    → feed bytes ≡ record { packet = some (take packet_size bytes); rest = drop packet_size bytes }
feed_long bytes h = rw (le→leb _ _ h)

abbrev pub result_of : Option (List ℕ) → Result
result_of none = packet_incomplete
result_of (some p) = packet_complete

-- A call of `assemble` did to the queue what `feed` does.
pub record Refines (bytes : List ℕ) (r : Receiver) (result : Result) : Type 0 where
  pub valid : IsValid r
  pub queue : pending r ≡ (feed bytes).rest
  pub code : result ≡ result_of (feed bytes).packet
  pub packet : result ≡ packet_complete → (feed bytes).packet ≡ some r.private_buffer
