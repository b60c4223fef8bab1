-- ===== src/Serialize.antt =====
-- RPi/serialize.cpp and RPi/serialize.h: the framing of the serial link. server/serialize.cpp is
-- the same text. A `char` is its byte; words lie in memory lowest byte first, as on the
-- Raspberry Pi's and the Arduino's processors. Undefined behaviour is a fault, `none`.
-- The line that `deserialize` prints for a bad magic number is left out.
pub mod Pending
pub mod Settling
pub mod Refinement
pub mod Checksum
pub mod Frame
pub mod Roundtrip
pub mod Calls
pub mod Tests
use cg2111a_b.Base.{ℕ, zero, suc, ◌+◌, ◌-◌, ◌%◌, bit_xor, Bool, true, false}
use cg2111a_b.Base.{List, [], ◌∷◌, ◌++◌, Option, none, some, ◌>>=◌, if◌then◌else◌, leb, ◌==◌}
use cg2111a_b.Base.{length, get_elem?, get_or, take, drop, replicate}
use cg2111a_b.Memory.{copy, memcpy, overwrite, le_bytes, le_word}

abbrev pub packet_size : ℕ
packet_size = 140

abbrev pub max_data_size : ℕ
max_data_size = 128

abbrev pub magic_number : ℕ
magic_number = 0xFCFDFEFF

pub data Result : Type 0 where
  packet_ok packet_bad packet_checksum_bad packet_incomplete packet_complete : Result

-- `TComms`.
pub record Comms : Type 0 where
  pub magic : ℕ
  pub data_size : ℕ
  pub buffer : List ℕ
  pub checksum : ℕ
  pub dummy : List ℕ

-- The bytes of a `TComms`, and the cast that reads a buffer as one.
unfoldable pub comms_bytes : Comms → List ℕ
comms_bytes c =
    le_bytes 4 c.magic ++ (le_bytes 4 c.data_size ++ (c.buffer ++ (c.checksum ∷ c.dummy)))

unfoldable pub as_comms : List ℕ → Comms
as_comms bs = record {
  magic = le_word (take 4 bs);
  data_size = le_word (take 4 (drop 4 bs));
  buffer = take max_data_size (drop 8 bs);
  checksum = get_or bs 136 0;
  dummy = take 3 (drop 137 bs);
}

-- The static variables of `assemble`.
pub record Assembler : Type 0 where
  pub counter : ℕ
  pub leftover_flag : Bool
  pub leftover_count : ℕ
  pub leftover_buffer : List ℕ

-- Those, and `_privateBuffer`, which is the output buffer of every call of `assemble`.
pub record Receiver : Type 0 where
  pub private_buffer : List ℕ
  pub assembler : Assembler

-- Static storage starts as zeros.
abbrev pub init : Receiver
init = record {
  private_buffer = replicate packet_size 0;
  assembler = record {
    counter = 0;
    leftover_flag = false;
    leftover_count = 0;
    leftover_buffer = replicate packet_size 0;
  };
}

-- "Copy in leftovers".
unfoldable pub copy_leftovers : Receiver → Option Receiver
copy_leftovers r =
    let a = r.assembler in
    let small = leb a.leftover_count packet_size in
    let copy_count = if small then a.leftover_count else packet_size in
    if a.leftover_flag
    then (do
      output ← copy a.leftover_buffer copy_count 0 r.private_buffer a.counter
      some (record {
        private_buffer = output;
        assembler = record a {
          counter = a.counter + copy_count;
          leftover_flag = if small then false else true;
          leftover_count = a.leftover_count - copy_count;
        };
      }))
    else some r

-- The bytes that belong to the next packet go to the leftover buffer. The result has the number
-- of bytes that are left for this packet, `bytesLeft`. `counter` is never above `packet_size`
-- here, since writing past the end of the buffer is a fault, so the differences are exact.
unfoldable pub keep_leftovers : Assembler → List ℕ → ℕ → Option (Assembler × ℕ)
keep_leftovers a input len =
    let bytes_left = packet_size - a.counter in
    let bytes_to_copy = len - bytes_left in
    if leb packet_size (a.counter + len)
    then (do
      leftover ← copy input bytes_to_copy bytes_left a.leftover_buffer a.leftover_count
      some (
        record a {
          leftover_flag = true;
          leftover_count = a.leftover_count + bytes_to_copy;
          leftover_buffer = leftover;
        },
        bytes_left,
      ))
    else some (a, len)

-- "if(counter == PACKET_SIZE)".
unfoldable pub finish : Receiver → Receiver × Result
finish r =
    if r.assembler.counter == packet_size
    then (record r { assembler = record (r.assembler) { counter = 0 } }, packet_complete)
    else (r, packet_incomplete)

-- The rest of `assemble`, once the leftovers are in.
unfoldable pub fill : Receiver → List ℕ → ℕ → Option (Receiver × Result)
unfolding keep_leftovers finish
fill r input len = do
  (a, bytes_left) ← keep_leftovers r.assembler input len
  output ← copy input bytes_left 0 r.private_buffer a.counter
  some (
      finish (record {
        private_buffer = output;
        assembler = record a { counter = a.counter + bytes_left };
      }))

unfoldable pub assemble : Receiver → List ℕ → ℕ → Option (Receiver × Result)
unfolding copy_leftovers fill
assemble r input len = do r1 ← copy_leftovers r; fill r1 input len

-- `for(i=0; i<left; i++) checksum ^= buffer[i];` from index `i`, in an `unsigned char`.
unfoldable pub checksum_loop : List ℕ → ℕ → ℕ → ℕ → Option ℕ
checksum_loop buffer zero i checksum = some checksum
checksum_loop buffer (suc left) i checksum = do
  b ← get_elem? buffer i
  checksum_loop buffer left (suc i) (bit_xor checksum b % 256)

-- The copy to the caller, when the checksum is right.
unfoldable pub deliver : Comms → ℕ → List ℕ → Option (List ℕ × Result)
unfolding memcpy
deliver comms checksum output =
    let copied = (do
      output' ← memcpy output comms.buffer comms.data_size
      some (output', packet_ok)) in
    if checksum == comms.checksum then copied else some (output, packet_checksum_bad)

-- What `deserialize` does with a complete packet.
unfoldable pub extract : List ℕ → List ℕ → Option (List ℕ × Result)
unfolding as_comms checksum_loop deliver
extract private_buffer output =
    let comms = as_comms private_buffer in
    let checked = (do
      checksum ← checksum_loop comms.buffer comms.data_size 0 0
      deliver comms checksum output) in
    if comms.magic == magic_number then checked else some (output, packet_bad)

abbrev pub after_assembly : Receiver → List ℕ → Result → Option (Receiver × List ℕ × Result)
after_assembly r output packet_complete = do
  (output', result) ← extract r.private_buffer output
  some (r, output', result)
after_assembly r output result = some (r, output, result)

unfoldable pub deserialize : Receiver → List ℕ → ℕ → List ℕ → Option (Receiver × List ℕ × Result)
unfolding assemble extract
deserialize r buffer len output = do
  (r', result) ← assemble r buffer len
  after_assembly r' output result

-- `comms` starts with whatever its stack slot held. The result is the new contents of `buffer`
-- and `sizeof(TComms)`.
unfoldable pub serialize : Comms → List ℕ → List ℕ → ℕ → Option (List ℕ × ℕ)
serialize comms buffer structure size = do
  filled ← memcpy comms.buffer structure size
  checksum ← checksum_loop filled size 0 0
  let packet = record comms {
    magic = magic_number;
    data_size = size;
    buffer = filled;
    checksum = checksum;
  }
  buffer' ← memcpy buffer (comms_bytes packet) packet_size
  some (buffer', packet_size)
