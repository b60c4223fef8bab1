-- ===== src/Link/Stream.antt =====
-- The packets that were sent, the bytes of the stream, and the reads that cut it.
use cg2111a_b.Base.{
  ℕ, ◌≤◌, ◌≡◌, refl, sym, ap, ◌∙◌, arith, List, [], ◌∷◌, ◌++◌, length, take, drop, take-append,
  drop-append, take-append_le, drop-append_le, All,
}
use cg2111a_b.Memory.{overwrite}
use cg2111a_b.Packet.{packet_bytes_len}
use cg2111a_b.Serialize.{Comms, packet_size}
use cg2111a_b.Serialize.Frame.{IsComms, length-comms_bytes}
use cg2111a_b.Serialize.Roundtrip.{frame, packed-IsComms}
use cg2111a_b.Link.{Read, got, failed}

-- A packet as it was sent: what the sender's stack slot held, and the structure.
pub record Sent : Type 0 where
  pub slot : Comms
  pub structure : List ℕ

abbrev pub IsSent : Sent → Type 0
IsSent m = IsComms m.slot × (length m.structure ≡ packet_bytes_len)

-- The bytes that were sent, and those that were read.
abbrev pub stream : List Sent → List ℕ
stream [] = []
stream (m ∷ ms) = frame m.slot m.structure ++ stream ms

abbrev pub bytes_of : Read → List ℕ
bytes_of (got chunk) = chunk
bytes_of failed = []

abbrev pub all_bytes : List Read → List ℕ
all_bytes [] = []
all_bytes (r ∷ rs) = bytes_of r ++ all_bytes rs

-- No read is longer than the thread's buffer.
abbrev pub Fits : List Read → Type 0
Fits rs = All (λ r. length (bytes_of r) ≤ packet_size) rs

pub length-frame : (m : Sent) → IsSent m → length (frame m.slot m.structure) ≡ packet_size
length-frame m h = length-comms_bytes _ (packed-IsComms m.slot m.structure h.0 (omega (arith, h.1)))

pub overwrite_front :
    (dest bs : List ℕ) → length bs ≤ length dest → overwrite dest bs ≡ bs ++ drop (length bs) dest
overwrite_front dest [] h = refl
overwrite_front [] (b ∷ bs) h = absurd (omega arith)
overwrite_front (d ∷ dest) (b ∷ bs) h = ap (λ t. b ∷ t) (overwrite_front dest bs (omega arith))

pub first_frame :
    (a later : List ℕ) (m : Sent) (ms : List Sent)
    → IsSent m
    → packet_size ≤ length a
    → a ++ later ≡ stream (m ∷ ms)
    → (take packet_size a ≡ frame m.slot m.structure) × (drop packet_size a ++ later ≡ stream ms)
first_frame a later m ms h long e =
    let f = frame m.slot m.structure in
    let size : packet_size ≡ length f = sym (length-frame m h) in
    (
      sym (take-append_le packet_size a later long)
          ∙ ap (take packet_size) e
          ∙ ap (λ (n : ℕ). take n (f ++ stream ms)) size
          ∙ take-append f (stream ms),
      sym (drop-append_le packet_size a later long)
          ∙ ap (drop packet_size) e
          ∙ ap (λ (n : ℕ). drop n (f ++ stream ms)) size
          ∙ drop-append f (stream ms),
    )
