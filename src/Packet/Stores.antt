-- ===== src/Packet/Stores.antt =====
-- A `TPacket` keeps its shape when members are stored to.
use cg2111a_b.Base.{ℕ, zero, suc, ◌<◌, ◌^◌, ◌∙◌, List, [], ◌∷◌, set, length-set}
use cg2111a_b.Packet.{Packet, set_param}
use cg2111a_b.Packet.Layout.{IsPacket, IsWords}

set-IsWords : (ws : List ℕ) (i v : ℕ) → IsWords ws → v < 2 ^ 32 → IsWords (set ws i v)
set-IsWords [] i v h k = tt
set-IsWords (w ∷ ws) zero v h k = (k, h.1)
set-IsWords (w ∷ ws) (suc i) v h k = (h.0, set-IsWords ws i v h.1 k)

pub set_param-IsPacket :
    (i v : ℕ) (p : Packet) → IsPacket p → v < 2 ^ 32 → IsPacket (set_param i v p)
set_param-IsPacket i v p h k = record {
  dummy_size = h.dummy_size;
  text_size = h.text_size;
  params_size = length-set p.params i v ∙ h.params_size;
  params_words = set-IsWords p.params i v h.params_words k;
}

pub coded-IsPacket :
    (p : Packet) (kind code : ℕ)
    → IsPacket p
    → IsPacket (record p { packet_type = kind; command = code })
coded-IsPacket p kind code h = record {
  dummy_size = h.dummy_size;
  text_size = h.text_size;
  params_size = h.params_size;
  params_words = h.params_words;
}
