-- ===== src/Packet/Layout.antt =====
-- A `TPacket` read back from its bytes.
use cg2111a_b.Base.{
  ℕ, ◌+◌, ◌*◌, ◌^◌, ◌<◌, ◌≡◌, refl, sym, ap, ap₂, ◌∙◌, arith, List, [], ◌∷◌, ◌++◌, length, take,
  drop, length-append, take-append, drop-append, drop-append_ge, All,
}
use cg2111a_b.Memory.Words.{le_word-le_bytes}
use cg2111a_b.Packet.{
  Packet, max_str_len, packet_bytes_len, words_bytes, words, packet_bytes, as_packet,
}

abbrev pub IsWords : List ℕ → Type 0
IsWords ws = All (λ w. w < 2 ^ 32) ws

-- The members have the sizes that the struct declares.
pub record IsPacket (p : Packet) : Type 0 where
  pub dummy_size : length p.dummy ≡ 2
  pub text_size : length p.text ≡ max_str_len
  pub params_size : length p.params ≡ 16
  pub params_words : IsWords p.params

words-words_bytes : (ws : List ℕ) → IsWords ws → words (length ws) (words_bytes ws) ≡ ws
words-words_bytes [] h = refl
words-words_bytes (w ∷ ws) h =
    ap₂ ◌∷◌ (le_word-le_bytes 4 w (omega (arith, h.0))) (words-words_bytes ws h.1)

length-words_bytes : (ws : List ℕ) → length (words_bytes ws) ≡ 4 * length ws
length-words_bytes [] = refl
length-words_bytes (w ∷ ws) = omega (arith, length-words_bytes ws)

pub length-packet_bytes : (p : Packet) → IsPacket p → length (packet_bytes p) ≡ packet_bytes_len
unfolding packet_bytes
length-packet_bytes p h = omega (
  arith,
  h,
  length-append p.dummy (p.text ++ words_bytes p.params),
  length-append p.text (words_bytes p.params),
  length-words_bytes p.params,
)

Packet_eq :
    {t c : ℕ} {d d' s s' w w' : List ℕ}
    → d ≡ d'
    → s ≡ s'
    → w ≡ w'
    → ◌≡◌ {A = Packet}
        (record { packet_type = t; command = c; dummy = d; text = s; params = w })
        (record { packet_type = t; command = c; dummy = d'; text = s'; params = w' })
Packet_eq {t} {c} p q r =
    λ i. record { packet_type = t; command = c; dummy = p i; text = q i; params = r i }

-- The bytes of a packet whose members have the sizes that the struct declares, read as a packet,
-- are that packet.
pub as_packet-packet_bytes : (p : Packet) → IsPacket p → as_packet (packet_bytes p) ≡ p
unfolding as_packet packet_bytes
as_packet-packet_bytes p h =
    Packet_eq
      (ap (λ (n : ℕ). take n (p.dummy ++ more)) (sym h.dummy_size) ∙ take-append p.dummy more)
      (ap (λ (n : ℕ). take max_str_len (drop n (p.dummy ++ more))) (sym h.dummy_size)
        ∙ ap (take max_str_len) (drop-append p.dummy more)
        ∙ ap (λ (n : ℕ). take n more) (sym h.text_size)
        ∙ take-append p.text (words_bytes p.params))
      (ap (λ (n : ℕ). words 16 (drop n (p.dummy ++ more))) far
        ∙ ap (words 16) (
            drop-append_ge p.dummy more (length p.text) ∙ drop-append p.text (words_bytes p.params))
        ∙ ap (λ (n : ℕ). words n (words_bytes p.params)) (sym h.params_size)
        ∙ words-words_bytes p.params h.params_words)
  where
    more : List ℕ
    more = p.text ++ words_bytes p.params

    far : 34 ≡ length p.dummy + length p.text
    far = omega (arith, h)
