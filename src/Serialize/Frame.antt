-- ===== src/Serialize/Frame.antt =====
-- The 140 bytes on the wire (`TComms` of RPi/serialize.cpp), and what `deserialize` makes of any
-- 140 bytes.
use cg2111a_b.Base.{
  ℕ, ◌+◌, ◌≤◌, ◌<◌, ◌≡◌, sym, ap, ◌∙◌, arith, List, ◌∷◌, ◌++◌, Option, some, none, if◌then◌else◌,
  leb, ◌==◌, length, take, drop, get_or, take-append, drop-append_ge, get_or-append, length-append,
  length-take, length-drop, take_all, Bool-cases, ◌>>=◌, inl, inr, le→leb, lt→leb_false, ◌^◌,
}
use native.Mathlib.Decide.{dec_le}
use cg2111a_b.Memory.{overwrite, memcpy}
use cg2111a_b.Memory.Words.{le_word-le_bytes}
use cg2111a_b.Serialize.{
  Comms, Result, packet_size, max_data_size, magic_number, packet_ok, packet_bad,
  packet_checksum_bad, comms_bytes, as_comms, extract, deliver, checksum_loop,
}
use cg2111a_b.Serialize.Checksum.{xor_all, checksum_loop_lem, checksum_loop_fault}

-- The members have the sizes that the struct declares.
pub record IsComms (c : Comms) : Type 0 where
  pub magic_word : c.magic < 2 ^ 32
  pub size_word : c.data_size < 2 ^ 32
  pub buffer_size : length c.buffer ≡ max_data_size
  pub dummy_size : length c.dummy ≡ 3

Comms_eq :
    {m m' n n' : ℕ} {b b' : List ℕ} {k k' : ℕ} {d d' : List ℕ}
    → m ≡ m'
    → n ≡ n'
    → b ≡ b'
    → k ≡ k'
    → d ≡ d'
    → ◌≡◌ {A = Comms}
        (record { magic = m; data_size = n; buffer = b; checksum = k; dummy = d })
        (record { magic = m'; data_size = n'; buffer = b'; checksum = k'; dummy = d' })
Comms_eq p q r s t =
    λ i. record { magic = p i; data_size = q i; buffer = r i; checksum = s i; dummy = t i }

-- Reading the bytes of a struct as a struct gives it back.
pub as_comms-comms_bytes : (c : Comms) → IsComms c → as_comms (comms_bytes c) ≡ c
unfolding as_comms comms_bytes
as_comms-comms_bytes c h =
    Comms_eq (le_word-le_bytes 4 c.magic h.magic_word) (le_word-le_bytes 4 c.data_size h.size_word)
      (ap (λ (t : ℕ). take t (c.buffer ++ (c.checksum ∷ c.dummy))) (sym h.buffer_size)
        ∙ take-append c.buffer (c.checksum ∷ c.dummy))
      (ap (λ (t : ℕ). get_or (c.buffer ++ (c.checksum ∷ c.dummy)) t 0) (sym h.buffer_size)
        ∙ get_or-append c.buffer c.checksum c.dummy 0)
      (ap (λ (t : ℕ). take 3 (drop t (c.buffer ++ (c.checksum ∷ c.dummy)))) past
        ∙ ap (take 3) (drop-append_ge c.buffer (c.checksum ∷ c.dummy) 1)
        ∙ take_all 3 c.dummy (omega (arith, h.dummy_size)))
  where
    past : 129 ≡ length c.buffer + 1
    past = omega (arith, h.buffer_size)

pub length-comms_bytes : (c : Comms) → IsComms c → length (comms_bytes c) ≡ packet_size
unfolding comms_bytes
length-comms_bytes c h =
    omega (arith, h.buffer_size, h.dummy_size, length-append c.buffer (c.checksum ∷ c.dummy))

-- What `deserialize` makes of a complete packet, without loops and copies. `none` is an access
-- outside `comms->buffer` or outside the caller's structure.
abbrev pub delivery : Comms → List ℕ → Option (List ℕ × Result)
delivery c output =
    let payload = take c.data_size c.buffer in
    if leb c.data_size max_data_size
    then (if xor_all 0 payload == c.checksum
        then (if leb c.data_size (length output)
            then some (overwrite output payload, packet_ok)
            else none)
        else some (output, packet_checksum_bad))
    else none

abbrev pub verdict : Comms → List ℕ → Option (List ℕ × Result)
verdict c output = if c.magic == magic_number then delivery c output else some (output, packet_bad)

deliver_lem :
    (c : Comms) (output : List ℕ) (checksum : ℕ)
    → c.data_size ≤ length c.buffer
    → deliver c checksum output ≡ (
        if checksum == c.checksum
        then (if leb c.data_size (length output)
            then some (overwrite output (take c.data_size c.buffer), packet_ok)
            else none)
        else some (output, packet_checksum_bad))
unfolding deliver memcpy
deliver_lem c output checksum h =
    rw (le→leb _ _ h)
      (elim (Bool-cases (leb c.data_size (length output))) [ inl e ↦ rw e | inr e ↦ rw e ])

checked-eq-delivery :
    (c : Comms) (output : List ℕ)
    → length c.buffer ≡ max_data_size
    → (checksum_loop c.buffer c.data_size 0 0 >>= λ k. deliver c k output) ≡ delivery c output
checked-eq-delivery c output h = elim (dec_le c.data_size max_data_size) [
  | yes p ↦
      rw
        (
          checksum_loop_lem c.buffer c.data_size 0 0 (omega (arith, h)),
          le→leb c.data_size max_data_size p,
        )
        (deliver_lem c output (xor_all 0 (take c.data_size c.buffer)) (omega (arith, h)))
  | no p ↦ rw (
    checksum_loop_fault c.buffer c.data_size 0 0 (omega arith) (omega (arith, h)),
    lt→leb_false c.data_size max_data_size (omega arith),
  )
]

buffer_size :
    (packet : List ℕ)
    → length packet ≡ packet_size
    → length (as_comms packet).buffer ≡ max_data_size
unfolding as_comms
buffer_size packet h =
    omega (arith, h, length-take max_data_size (drop 8 packet), length-drop 8 packet)

-- Every buffer of 140 bytes gets the verdict that its magic number, its size, its checksum and
-- the caller's structure call for.
pub extract-verdict :
    (packet output : List ℕ)
    → length packet ≡ packet_size
    → extract packet output ≡ verdict (as_comms packet) output
unfolding extract
extract-verdict packet output h =
    ap (λ t. if (as_comms packet).magic == magic_number then t else some (output, packet_bad))
      (checked-eq-delivery (as_comms packet) output (buffer_size packet h))
