-- ===== src/Alex/Framing.antt =====
-- What the firmware (alex/usart.ino) relies on in the Arduino library that frames its packets,
-- and that the framing code of the Raspberry Pi (RPi/serialize.cpp) has it.
use cg2111a_b.Base.{
  ℕ, ◌≤◌, ◌<◌, ◌≡◌, ap, sym, ◌∙◌, arith, List, [], ◌++◌, Option, none, some, length, take, take_all,
  drop_all,
}
use cg2111a_b.Memory.{overwrite}
use cg2111a_b.Memory.Splice.{overwrite_all}
use cg2111a_b.Packet.{packet_bytes_len, Packet, packet_bytes, as_packet}
use cg2111a_b.Packet.Layout.{IsPacket, length-packet_bytes, as_packet-packet_bytes}
use cg2111a_b.Serialize.{
  Comms, Receiver, Result, packet_size, packet_ok, packet_incomplete, deserialize,
}
use cg2111a_b.Serialize.Pending.{pending, IsValid}
use cg2111a_b.Serialize.Calls.{deserialize_waits, deserialize_delivers}
use cg2111a_b.Serialize.Frame.{IsComms}
use cg2111a_b.Serialize.Roundtrip.{frame}
use cg2111a_b.Link.Stream.{length-frame}
use cg2111a_b.Pi.{CommandType, command_code}
use cg2111a_b.Alex.{Alex, World}
use cg2111a_b.Alex.Commands.{handle_packet}

-- A call of `deserialize` that left `queue` waiting and gave `p'` and `result`.
pub record Gave {Receiver : Type 0} (Valid : Receiver → Type 0) (waiting : Receiver → List ℕ)
    (called : Option (Receiver × Packet × Result)) (queue : List ℕ) (p' : Packet) (result : Result)
    : Type 0 where
  pub after : Receiver
  pub call : called ≡ some (after, p', result)
  pub valid : Valid after
  pub left : waiting after ≡ queue

-- Bytes wait until they are a packet's worth, and a packet made by `serialize` is then delivered.
pub record Framing (w : World) : Type 1 where
  pub Valid : w.Receiver → Type 0
  pub waiting : w.Receiver → List ℕ
  pub few : (r : w.Receiver) → Valid r → length (waiting r) < packet_size
  pub waits :
      (r : w.Receiver) (chunk rest : List ℕ) (old : Packet)
      → Valid r
      → IsPacket old
      → length (waiting r ++ chunk) < packet_size
      → length chunk ≤ packet_size
      → Gave Valid waiting
          (w.deserialize r (chunk ++ rest) (length chunk) old)
          (waiting r ++ chunk)
          old
          packet_incomplete
  pub delivers :
      (r : w.Receiver) (chunk rest : List ℕ) (old p : Packet) (slot : Comms)
      → Valid r
      → IsPacket old
      → IsPacket p
      → IsComms slot
      → length chunk ≤ packet_size
      → waiting r ++ chunk ≡ frame slot (packet_bytes p)
      → Gave Valid waiting (w.deserialize r (chunk ++ rest) (length chunk) old) [] p packet_ok
  pub sends :
      (s : Alex w.Receiver) (p : Packet)
      → IsPacket p
      → (slot : Comms) × IsComms slot
        × (take
              (w.serialize s (w.buffer s) p packet_bytes_len).1
              (w.serialize s (w.buffer s) p packet_bytes_len).0
            ≡ frame slot (packet_bytes p))

-- `deserialize` of the Raspberry Pi over packets.
abbrev pub over_packets : Option (Receiver × List ℕ × Result) → Option (Receiver × Packet × Result)
over_packets none = none
over_packets (some (r', output, result)) = some (r', as_packet output, result)

abbrev pub deserialize_packet : Receiver → List ℕ → ℕ → Packet → Option (Receiver × Packet × Result)
deserialize_packet r buffer len old = over_packets (deserialize r buffer len (packet_bytes old))

pub own_waits :
    (r : Receiver) (chunk rest : List ℕ) (old : Packet)
    → IsValid r
    → IsPacket old
    → length (pending r ++ chunk) < packet_size
    → length chunk ≤ packet_size
    → Gave IsValid pending
        (deserialize_packet r (chunk ++ rest) (length chunk) old)
        (pending r ++ chunk)
        old
        packet_incomplete
own_waits r chunk rest old v shape short fits =
    let called = deserialize_waits r chunk rest (packet_bytes old) v fits short in
    record {
      after = called.after;
      call =
          ap over_packets called.call
          ∙ ap (λ p. some (called.after, p, packet_incomplete)) (as_packet-packet_bytes old shape);
      valid = called.valid;
      left = called.left;
    }

pub own_delivers :
    (r : Receiver) (chunk rest : List ℕ) (old p : Packet) (slot : Comms)
    → IsValid r
    → IsPacket old
    → IsPacket p
    → IsComms slot
    → length chunk ≤ packet_size
    → pending r ++ chunk ≡ frame slot (packet_bytes p)
    → Gave IsValid pending (deserialize_packet r (chunk ++ rest) (length chunk) old) [] p packet_ok
own_delivers r chunk rest old p slot v shape shape' slot_shape fits e =
    let size = length-packet_bytes p shape' in
    let old_size = length-packet_bytes old shape in
    let whole : length (pending r ++ chunk) ≡ packet_size =
      ap length e
      ∙ length-frame (record { slot = slot; structure = packet_bytes p }) (slot_shape, size) in
    let called =
      deserialize_delivers r chunk rest (packet_bytes old) v fits slot (packet_bytes p) slot_shape
        (omega (arith, size)) (omega (arith, size, old_size)) (omega (arith, whole))
        (take_all packet_size (pending r ++ chunk) (omega (arith, whole)) ∙ e) in
    let output : overwrite (packet_bytes old) (packet_bytes p) ≡ packet_bytes p =
      overwrite_all (packet_bytes old) (packet_bytes p) (size ∙ sym old_size) in
    record {
      after = called.after;
      call =
          ap over_packets called.call
          ∙ ap (λ bytes. some (called.after, as_packet bytes, packet_ok)) output
          ∙ ap (λ q. some (called.after, q, packet_ok)) (as_packet-packet_bytes p shape');
      valid = called.valid;
      left = called.left ∙ drop_all packet_size (pending r ++ chunk) (omega (arith, whole));
    }

-- A frame in a buffer of its size.
pub own_sends :
    (slot : Comms) (p : Packet)
    → IsComms slot
    → IsPacket p
    → take packet_size (frame slot (packet_bytes p)) ≡ frame slot (packet_bytes p)
own_sends slot p slot_shape shape = take_all packet_size (frame slot (packet_bytes p)) (
    let size =
      length-frame (record { slot = slot; structure = packet_bytes p })
        (slot_shape, length-packet_bytes p shape) in
    omega (arith, size))

-- That a run of the firmware ends with the handling of a packet of type `kind` with the command of
-- `code`, and that no byte waits then.
pub record Handled (w : World) (framing : Framing w) (kind : ℕ) (code : CommandType)
    (run : Option (Alex w.Receiver)) : Type 0 where
  pub packet : Packet
  pub before : Alex w.Receiver
  pub handled : run ≡ handle_packet w packet before
  pub kind_ok : packet.packet_type ≡ kind
  pub command_ok : packet.command ≡ command_code code
  pub valid : framing.Valid before.receiver
  pub empty : framing.waiting before.receiver ≡ []
