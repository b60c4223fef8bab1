-- ===== src/Serialize/Roundtrip.antt =====
-- `serialize` and `deserialize` of RPi/serialize.cpp against each other, and what a damaged
-- packet gives.
use cg2111a_b.Base.{
  ℕ, ◌+◌, ◌≤◌, ◌<◌, ◌≡◌, ◌≢◌, refl, sym, ap, ◌∙◌, arith, List, ◌∷◌, ◌++◌, some, length, take, set,
  length-append, set-append_lt, set-append_ge, le→leb, IsBytes, All-left, All-right, ne→eq_false,
  eq_refl,
}
use cg2111a_b.Memory.{overwrite, memcpy, le_bytes}
use cg2111a_b.Memory.Splice.{
  length-overwrite, take-overwrite, memcpy_lem, overwrite_all, set-overwrite,
}
use cg2111a_b.Serialize.{
  Comms, packet_size, max_data_size, magic_number, packet_ok, packet_checksum_bad, comms_bytes,
  extract, serialize,
}
use cg2111a_b.Serialize.Checksum.{xor_all, checksum_loop_lem, xor_all-ne}
use cg2111a_b.Serialize.Frame.{
  IsComms, as_comms-comms_bytes, length-comms_bytes, verdict, extract-verdict,
}

-- The packet that holds a structure: what the stack slot held stays in the unused bytes.
abbrev pub packed : Comms → List ℕ → Comms
packed c structure = record {
  magic = magic_number;
  data_size = length structure;
  buffer = overwrite c.buffer structure;
  checksum = xor_all 0 structure;
  dummy = c.dummy;
}

abbrev pub frame : Comms → List ℕ → List ℕ
frame c structure = comms_bytes (packed c structure)

pub packed-IsComms :
    (c : Comms) (structure : List ℕ)
    → IsComms c
    → length structure ≤ max_data_size
    → IsComms (packed c structure)
packed-IsComms c structure h k = record {
  magic_word = omega arith;
  size_word = omega arith;
  buffer_size = length-overwrite c.buffer structure ∙ h.buffer_size;
  dummy_size = h.dummy_size;
}

payload-packed :
    (c : Comms) (structure : List ℕ)
    → IsComms c
    → length structure ≤ max_data_size
    → take (length structure) (overwrite c.buffer structure) ≡ structure
payload-packed c structure h k = take-overwrite c.buffer structure (omega (arith, h.buffer_size))

-- `serialize` of a structure of at most 128 bytes into a buffer of 140 writes a whole packet,
-- whatever its local and the buffer held before, and returns 140.
pub serialize_lem :
    (c : Comms) (buffer structure : List ℕ)
    → IsComms c
    → length buffer ≡ packet_size
    → length structure ≤ max_data_size
    → serialize c buffer structure (length structure) ≡ some (frame c structure, packet_size)
unfolding serialize
serialize_lem c buffer structure h b k =
    rw
      (
        memcpy_lem c.buffer structure (length structure) refl (omega (arith, h.buffer_size)),
        checksum_loop_lem (overwrite c.buffer structure) (length structure) 0 0
            (omega (arith, h.buffer_size, length-overwrite c.buffer structure)),
        payload-packed c structure h k,
        written,
      )
      refl
  where
    size : length (frame c structure) ≡ packet_size
    size = length-comms_bytes _ (packed-IsComms c structure h k)

    written : memcpy buffer (frame c structure) packet_size ≡ some (frame c structure)
    written =
        memcpy_lem buffer (frame c structure) packet_size (sym size) (omega (arith, b))
        ∙ ap some (overwrite_all buffer (frame c structure) (size ∙ sym b))

-- A packet made by `serialize` from a structure of at most 128 bytes, which the caller's
-- structure has room for, is taken for good, and the structure is copied to the caller.
pub extract-frame :
    (c : Comms) (structure output : List ℕ)
    → IsComms c
    → length structure ≤ max_data_size
    → length structure ≤ length output
    → extract (frame c structure) output ≡ some (overwrite output structure, packet_ok)
extract-frame c structure output h k fits =
    extract-verdict (frame c structure) output (length-comms_bytes _ shape)
    ∙ ap (λ t. verdict t output) (as_comms-comms_bytes _ shape)
    ∙ rw
        (
          le→leb (length structure) max_data_size k,
          payload-packed c structure h k,
          eq_refl (xor_all 0 structure),
          le→leb (length structure) (length output) fits,
        )
        refl
  where
    shape : IsComms (packed c structure)
    shape = packed-IsComms c structure h k

-- The damage done to a packet by one byte of its structure arriving as another.
abbrev pub damaged : Comms → List ℕ → ℕ → ℕ → List ℕ → List ℕ
damaged c xs x y ys = set (frame c (xs ++ (x ∷ ys))) (8 + length xs) y

damaged-eq :
    (c : Comms) (xs : List ℕ) (x y : ℕ) (ys : List ℕ)
    → IsComms c
    → length (xs ++ (x ∷ ys)) ≤ max_data_size
    → damaged c xs x y ys
      ≡ comms_bytes
          (record (packed c (xs ++ (x ∷ ys))) { buffer = overwrite c.buffer (xs ++ (y ∷ ys)) })
unfolding comms_bytes
damaged-eq c xs x y ys h k =
    set-append_ge header rest (length xs) y
    ∙ ap (λ t. header ++ t)
        (set-append_lt (overwrite c.buffer (xs ++ (x ∷ ys))) tail (length xs) y (
            omega (
              arith,
              h.buffer_size,
              length-overwrite c.buffer (xs ++ (x ∷ ys)),
              length-append xs (x ∷ ys),
            ))
          ∙ ap (λ t. t ++ tail) (set-overwrite c.buffer xs x y ys))
  where
    header : List ℕ
    header = le_bytes 4 magic_number ++ le_bytes 4 (length (xs ++ (x ∷ ys)))

    tail : List ℕ
    tail = xor_all 0 (xs ++ (x ∷ ys)) ∷ c.dummy

    rest : List ℕ
    rest = overwrite c.buffer (xs ++ (x ∷ ys)) ++ tail

-- A packet made by `serialize` from a structure of at most 128 bytes, with one byte of the
-- structure arriving as another byte, is refused for its checksum, and nothing is copied to the
-- caller.
pub extract-damaged :
    (c : Comms) (xs : List ℕ) (x y : ℕ) (ys output : List ℕ)
    → IsComms c
    → length (xs ++ (x ∷ ys)) ≤ max_data_size
    → IsBytes (xs ++ (x ∷ ys))
    → y < 256
    → x ≢ y
    → extract (damaged c xs x y ys) output ≡ some (output, packet_checksum_bad)
extract-damaged c xs x y ys output h k bytes byte ne =
    ap (λ t. extract t output) (damaged-eq c xs x y ys h k)
    ∙ extract-verdict (comms_bytes got) output (length-comms_bytes got shape)
    ∙ ap (λ t. verdict t output) (as_comms-comms_bytes got shape)
    ∙ rw
        (
          le→leb (length (xs ++ (x ∷ ys))) max_data_size k,
          ap (λ (t : ℕ). take t (overwrite c.buffer (xs ++ (y ∷ ys)))) same,
          payload-packed c (xs ++ (y ∷ ys)) h (omega (arith, same)),
          ne→eq_false _ _ differs,
        )
        refl
  where
    got : Comms
    got = record (packed c (xs ++ (x ∷ ys))) { buffer = overwrite c.buffer (xs ++ (y ∷ ys)) }

    same : length (xs ++ (x ∷ ys)) ≡ length (xs ++ (y ∷ ys))
    same = omega (arith, length-append xs (x ∷ ys), length-append xs (y ∷ ys))

    rest : IsBytes (x ∷ ys)
    rest = All-right (λ b. b < 256) xs (x ∷ ys) bytes

    differs : xor_all 0 (xs ++ (y ∷ ys)) ≢ xor_all 0 (xs ++ (x ∷ ys))
    differs =
        xor_all-ne xs y x ys 0 (All-left (λ b. b < 256) xs (x ∷ ys) bytes) rest.1 byte rest.0
          (omega arith) (λ e. ne (sym e))

    shape : IsComms got
    shape = record {
      magic_word = omega arith;
      size_word = omega arith;
      buffer_size = length-overwrite c.buffer (xs ++ (y ∷ ys)) ∙ h.buffer_size;
      dummy_size = h.dummy_size;
    }
