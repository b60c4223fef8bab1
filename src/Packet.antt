-- ===== src/Packet.antt =====
-- `TPacket` of RPi/packet.h, server/packet.h and alex/packet.h, and its 100 bytes in memory.
pub mod Layout
pub mod Stores
pub mod Tests
use cg2111a_b.Base.{ℕ, zero, suc, List, [], ◌∷◌, ◌++◌, get_or, set, take, drop}
use cg2111a_b.Memory.{le_bytes, le_word}

abbrev pub max_str_len : ℕ
max_str_len = 32

-- `sizeof(TPacket)`.
abbrev pub packet_bytes_len : ℕ
packet_bytes_len = 100

-- `params` are words of 32 bits, every other member is of bytes.
pub record Packet : Type 0 where
  pub packet_type : ℕ
  pub command : ℕ
  pub dummy : List ℕ
  pub text : List ℕ
  pub params : List ℕ

abbrev pub words_bytes : List ℕ → List ℕ
words_bytes [] = []
words_bytes (w ∷ ws) = le_bytes 4 w ++ words_bytes ws

abbrev pub words : ℕ → List ℕ → List ℕ
words zero bs = []
words (suc n) bs = le_word (take 4 bs) ∷ words n (drop 4 bs)

unfoldable pub packet_bytes : Packet → List ℕ
packet_bytes p = p.packet_type ∷ (p.command ∷ (p.dummy ++ (p.text ++ words_bytes p.params)))

unfoldable pub as_packet : List ℕ → Packet
as_packet bs = record {
  packet_type = get_or bs 0 0;
  command = get_or bs 1 0;
  dummy = take 2 (drop 2 bs);
  text = take max_str_len (drop 4 bs);
  params = words 16 (drop 36 bs);
}

-- `packet->params[i]`, and `packet->params[i] = v`.
abbrev pub param : Packet → ℕ → ℕ
param p i = get_or p.params i 0

abbrev pub set_param : ℕ → ℕ → Packet → Packet
set_param i v p = record p { params = set p.params i v }
