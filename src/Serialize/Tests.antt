-- ===== src/Serialize/Tests.antt =====
-- Runs of the framing code of RPi/serialize.cpp, and its theorems at concrete inputs.
use cg2111a_b.Base.{ℕ, ◌≡◌, refl, List, [], ◌∷◌, ◌++◌, some, replicate, arith, take}
use cg2111a_b.Memory.{memcpy}
use cg2111a_b.Serialize.{
  Comms, Receiver, Result, init, serialize, assemble, extract, checksum_loop, comms_bytes, as_comms,
  packet_ok, packet_checksum_bad,
}
use cg2111a_b.Serialize.Pending.{pending, IsValid, Refines}
use cg2111a_b.Serialize.Refinement.{assemble-Refines}
use cg2111a_b.Serialize.Frame.{IsComms, verdict, extract-verdict, as_comms-comms_bytes}
use cg2111a_b.Serialize.Roundtrip.{frame, damaged, serialize_lem, extract-frame, extract-damaged}

abbrev pub blank : Comms
blank = record {
  magic = 0;
  data_size = 0;
  buffer = replicate 128 0xAA;
  checksum = 0;
  dummy = replicate 3 0xBB;
}

pub blank-IsComms : IsComms blank
blank-IsComms = record {
  magic_word = omega arith;
  size_word = omega arith;
  buffer_size = refl;
  dummy_size = refl;
}

abbrev wire : List ℕ
wire =
    0xFF
    ∷ 0xFE
    ∷ 0xFD
    ∷ 0xFC
    ∷ 2
    ∷ 0
    ∷ 0
    ∷ 0
    ∷ 7
    ∷ 9
    ∷ (replicate 126 0xAA ++ (14 ∷ replicate 3 0xBB))

serialize_runs : serialize blank (replicate 140 0) (7 ∷ 9 ∷ []) 2 ≡ some (wire, 140)
unfolding serialize memcpy checksum_loop comms_bytes
serialize_runs = refl

pub init-IsValid : IsValid init
init-IsValid = record {
  private_size = refl;
  leftover_size = refl;
  counter_below = omega arith;
  leftover_below = omega arith;
  flag_set = λ e. ground arith;
  flag_clear = λ e. refl;
}

-- A receiver that has 138 bytes of a packet.
abbrev partial_packet : Receiver
partial_packet = record {
  private_buffer = take 138 wire ++ (0 ∷ 0 ∷ []);
  assembler = record (init.assembler) { counter = 138 };
}

partial_packet-IsValid : IsValid partial_packet
partial_packet-IsValid = record {
  private_size = refl;
  leftover_size = refl;
  counter_below = omega arith;
  leftover_below = omega arith;
  flag_set = λ e. ground arith;
  flag_clear = λ e. refl;
}

assemble-Refines_example :
    (r' : Receiver) × (result : Result) × (assemble partial_packet
        ((0xBB ∷ 0xBB ∷ 1 ∷ 2 ∷ []) ++ (5 ∷ []))
        4
      ≡ some (r', result))
    × Refines (pending partial_packet ++ (0xBB ∷ 0xBB ∷ 1 ∷ 2 ∷ [])) r' result
assemble-Refines_example =
    assemble-Refines partial_packet (0xBB ∷ 0xBB ∷ 1 ∷ 2 ∷ []) (5 ∷ []) partial_packet-IsValid
      (omega arith)

serialize_lem_example :
    serialize blank (replicate 140 0) (7 ∷ 9 ∷ []) 2 ≡ some (frame blank (7 ∷ 9 ∷ []), 140)
serialize_lem_example =
    serialize_lem blank (replicate 140 0) (7 ∷ 9 ∷ []) blank-IsComms refl (omega arith)

extract-frame_example :
    extract (frame blank (7 ∷ 9 ∷ [])) (0 ∷ 0 ∷ 0 ∷ []) ≡ some (7 ∷ 9 ∷ 0 ∷ [], packet_ok)
extract-frame_example =
    extract-frame blank (7 ∷ 9 ∷ []) (0 ∷ 0 ∷ 0 ∷ []) blank-IsComms (omega arith) (omega arith)

extract-damaged_example :
    extract (damaged blank (7 ∷ []) 9 8 (3 ∷ [])) (0 ∷ 0 ∷ 0 ∷ [])
    ≡ some (0 ∷ 0 ∷ 0 ∷ [], packet_checksum_bad)
extract-damaged_example =
    extract-damaged blank (7 ∷ []) 9 8 (3 ∷ []) (0 ∷ 0 ∷ 0 ∷ []) blank-IsComms (omega arith)
      (omega arith, (omega arith, (omega arith, tt))) (omega arith) (omega arith)

extract-verdict_example : extract wire (0 ∷ 0 ∷ 0 ∷ []) ≡ verdict (as_comms wire) (0 ∷ 0 ∷ 0 ∷ [])
extract-verdict_example = extract-verdict wire (0 ∷ 0 ∷ 0 ∷ []) refl

as_comms-comms_bytes_example : as_comms (comms_bytes blank) ≡ blank
as_comms-comms_bytes_example = as_comms-comms_bytes blank blank-IsComms
