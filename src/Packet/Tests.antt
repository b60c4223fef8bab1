-- ===== src/Packet/Tests.antt =====
-- A concrete packet.
use cg2111a_b.Base.{ℕ, zero, suc, refl, ◌∷◌, replicate, arith}
use cg2111a_b.Packet.{Packet}
use cg2111a_b.Packet.Layout.{IsWords, IsPacket}

-- A command to drive forward at speed 75.
abbrev pub forward : Packet
forward = record {
  packet_type = 1;
  command = 0;
  dummy = replicate 2 0;
  text = replicate 32 0;
  params = 75 ∷ replicate 15 0;
}

zeros-IsWords : (n : ℕ) → IsWords (replicate n 0)
zeros-IsWords zero = tt
zeros-IsWords (suc n) = (omega arith, zeros-IsWords n)

pub forward-IsPacket : IsPacket forward
forward-IsPacket = record {
  dummy_size = refl;
  text_size = refl;
  params_size = refl;
  params_words = (omega arith, zeros-IsWords 15);
}
