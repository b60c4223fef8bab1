-- ===== src/Link/Blocks.antt =====
-- Any stream of bytes, good packets or not: the loop of a receiving thread (RPi/usart.cpp) takes it in
-- blocks of 140 bytes.
use cg2111a_b.Base.{
  ℕ, ◌≤◌, ◌<◌, ◌≡◌, refl, sym, ap, ◌∙◌, arith, List, [], ◌∷◌, ◌++◌, Option, some, ◌>>=◌,
  >>=-eq-some, length, take, drop, length-append, append_assoc, append-nil, take-append,
  drop-append, take-append_le, drop-append_le, All,
}
use native.Mathlib.Decide.{dec_le}
use cg2111a_b.Memory.{overwrite}
use cg2111a_b.Memory.Splice.{length-overwrite}
use cg2111a_b.Serialize.{Result, packet_size, packet_incomplete, as_comms}
use cg2111a_b.Serialize.Pending.{pending, IsValid}
use cg2111a_b.Serialize.Frame.{verdict, extract-verdict}
use cg2111a_b.Serialize.Calls.{deserialize_waits, deserialize_extracts, length-pending-lt}
use cg2111a_b.Link.{Read, got, failed, Thread, turn, receive, handled}
use cg2111a_b.Link.Stream.{bytes_of, all_bytes, Fits}
use cg2111a_b.Link.Turns.{turn_call}

abbrev pub IsBlock : List ℕ → Type 0
IsBlock block = length block ≡ packet_size

abbrev pub joined : List (List ℕ) → List ℕ
joined [] = []
joined (block ∷ blocks) = block ++ joined blocks

-- The first block of a stream, when that many bytes are there.
split_first :
    (a later block more : List ℕ)
    → IsBlock block
    → packet_size ≤ length a
    → a ++ later ≡ block ++ more
    → (take packet_size a ≡ block) × (drop packet_size a ++ later ≡ more)
split_first a later block more size long e = (
  sym (take-append_le packet_size a later long)
      ∙ ap (take packet_size) e
      ∙ ap (λ (n : ℕ). take n (block ++ more)) (sym size)
      ∙ take-append block more,
  sym (drop-append_le packet_size a later long)
      ∙ ap (drop packet_size) e
      ∙ ap (λ (n : ℕ). drop n (block ++ more)) (sym size)
      ∙ drop-append block more,
)

module _ {ℓ} {S : Type ℓ} (handle_packet : List ℕ → S → S) (handle_error : Result → S → S) where
  -- Each block gets its verdict, and the handlers see it, one after the other.
  abbrev pub judge_all : List (List ℕ) → List ℕ → S → Option (List ℕ × S)
  judge_all [] packet s = some (packet, s)
  judge_all (block ∷ blocks) packet s = verdict (as_comms block) packet >>= λ r.
      judge_all blocks r.0 (handled handle_packet handle_error r.1 r.0 s)

  pub record IsReady (t : Thread handle_packet handle_error) : Type 0 where
    pub buffer_size : length t.buffer ≡ packet_size
    pub valid : IsValid t.receiver

  record Taken (t : Thread handle_packet handle_error) (r : Read) (later tail : List ℕ)
      (out : List ℕ × S) : Type ℓ where
    next : Thread handle_packet handle_error
    more : List (List ℕ)
    sized : All IsBlock more
    made : turn handle_packet handle_error t r ≡ some next
    ready : IsReady next
    kept : pending next.receiver ++ later ≡ joined more ++ tail
    same : judge_all more next.packet next.state ≡ some out

  Taken-idle :
      (t : Thread handle_packet handle_error) (r : Read) (later tail : List ℕ)
      (blocks : List (List ℕ)) (out : List ℕ × S)
      → IsReady t
      → All IsBlock blocks
      → turn handle_packet handle_error t r ≡ some t
      → pending t.receiver ++ later ≡ joined blocks ++ tail
      → judge_all blocks t.packet t.state ≡ some out
      → Taken t r later tail out
  Taken-idle t r later tail blocks out h sized made e run = record {
    next = t;
    more = blocks;
    sized = sized;
    made = made;
    ready = h;
    kept = e;
    same = run;
  }

  Taken-waits :
      (t : Thread handle_packet handle_error) (b : ℕ) (chunk later tail : List ℕ)
      (blocks : List (List ℕ)) (out : List ℕ × S)
      → IsReady t
      → All IsBlock blocks
      → length (b ∷ chunk) ≤ packet_size
      → length (pending t.receiver ++ (b ∷ chunk)) < packet_size
      → (pending t.receiver ++ (b ∷ chunk)) ++ later ≡ joined blocks ++ tail
      → judge_all blocks t.packet t.state ≡ some out
      → Taken t (got (b ∷ chunk)) later tail out
  Taken-waits t b chunk later tail blocks out h sized short few e run =
      let c =
        deserialize_waits t.receiver (b ∷ chunk) (drop (length (b ∷ chunk)) t.buffer) t.packet
          h.valid short few in
      record {
        next = record {
          buffer = overwrite t.buffer (b ∷ chunk);
          packet = t.packet;
          receiver = c.after;
          state = t.state;
        };
        more = blocks;
        sized = sized;
        made =
            turn_call handle_packet handle_error t b chunk c.after t.packet packet_incomplete short
              h.buffer_size c.call;
        ready = record {
          buffer_size = length-overwrite t.buffer (b ∷ chunk) ∙ h.buffer_size;
          valid = c.valid;
        };
        kept = ap (λ q. q ++ later) c.left ∙ e;
        same = run;
      }

  Taken-block :
      (t : Thread handle_packet handle_error) (b : ℕ) (chunk later tail : List ℕ)
      (blocks : List (List ℕ)) (out : List ℕ × S)
      → IsReady t
      → All IsBlock blocks
      → length tail < packet_size
      → length (b ∷ chunk) ≤ packet_size
      → packet_size ≤ length (pending t.receiver ++ (b ∷ chunk))
      → (pending t.receiver ++ (b ∷ chunk)) ++ later ≡ joined blocks ++ tail
      → judge_all blocks t.packet t.state ≡ some out
      → Taken t (got (b ∷ chunk)) later tail out
  Taken-block t b chunk later tail [] out h sized rest short many e run =
      absurd (omega (arith, ap length e, length-append (pending t.receiver ++ (b ∷ chunk)) later))
  Taken-block t b chunk later tail (block ∷ blocks) out h sized rest short many e run =
      let (first, others) =
        split_first (pending t.receiver ++ (b ∷ chunk)) later block (joined blocks ++ tail) sized.0
          many (e ∙ append_assoc block (joined blocks) tail) in
      let ((packet', result), judged, run') =
        >>=-eq-some (verdict (as_comms block) t.packet) _ run in
      let c =
        deserialize_extracts t.receiver (b ∷ chunk) (drop (length (b ∷ chunk)) t.buffer) t.packet
          h.valid short block packet' result many first
          (extract-verdict block t.packet sized.0 ∙ judged) in
      record {
        next = record {
          buffer = overwrite t.buffer (b ∷ chunk);
          packet = packet';
          receiver = c.after;
          state = handled handle_packet handle_error result packet' t.state;
        };
        more = blocks;
        sized = sized.1;
        made =
            turn_call handle_packet handle_error t b chunk c.after packet' result short
              h.buffer_size c.call;
        ready = record {
          buffer_size = length-overwrite t.buffer (b ∷ chunk) ∙ h.buffer_size;
          valid = c.valid;
        };
        kept = ap (λ q. q ++ later) c.left ∙ others;
        same = run';
      }

  turn-Taken :
      (t : Thread handle_packet handle_error) (r : Read) (later tail : List ℕ)
      (blocks : List (List ℕ)) (out : List ℕ × S)
      → IsReady t
      → All IsBlock blocks
      → length tail < packet_size
      → length (bytes_of r) ≤ packet_size
      → pending t.receiver ++ (bytes_of r ++ later) ≡ joined blocks ++ tail
      → judge_all blocks t.packet t.state ≡ some out
      → Taken t r later tail out
  turn-Taken t failed later tail blocks out h sized rest short e run =
      Taken-idle t failed later tail blocks out h sized (unfold turn in refl) e run
  turn-Taken t (got []) later tail blocks out h sized rest short e run =
      Taken-idle t (got []) later tail blocks out h sized (unfold turn in refl) e run
  turn-Taken t (got (b ∷ chunk)) later tail blocks out h sized rest short e run =
      let e' : (pending t.receiver ++ (b ∷ chunk)) ++ later ≡ joined blocks ++ tail =
        append_assoc (pending t.receiver) (b ∷ chunk) later ∙ e in
      elim (dec_le packet_size (length (pending t.receiver ++ (b ∷ chunk)))) [
        | yes many ↦ Taken-block t b chunk later tail blocks out h sized rest short many e' run
        | no few ↦ Taken-waits t b chunk later tail blocks out h sized short (omega arith) e' run
      ]

  -- Whatever bytes arrive, good packets or not, and however the reads cut them: the loop takes them in
  -- blocks of 140, gives each block its verdict, and calls the handler of packets or that of errors
  -- for it, once and in order; the bytes of the last block that is not whole are what waits. The
  -- condition is that no block makes `deserialize` access memory out of bounds.
  pub receive-blocks :
      (t : Thread handle_packet handle_error) (rs : List Read) (tail : List ℕ)
      (blocks : List (List ℕ)) (out : List ℕ × S)
      → IsReady t
      → All IsBlock blocks
      → length tail < packet_size
      → Fits rs
      → pending t.receiver ++ all_bytes rs ≡ joined blocks ++ tail
      → judge_all blocks t.packet t.state ≡ some out
      → (t' : Thread handle_packet handle_error) × (receive handle_packet handle_error t rs
          ≡ some t')
        × (t'.packet ≡ out.0)
        × (t'.state ≡ out.1)
        × (pending t'.receiver ≡ tail)
  unfolding receive
  receive-blocks t [] tail [] out h sized rest fits e run =
      let same : (t.packet, t.state) ≡ out = cc in
      (t, refl, ap (λ q. q.0) same, ap (λ q. q.1) same, sym (append-nil _) ∙ e)
  receive-blocks t [] tail (block ∷ blocks) out h sized rest fits e run = absurd (
      omega (
        arith,
        ap length e,
        length-append (pending t.receiver) [],
        length-pending-lt t.receiver h.valid,
        length-append (block ++ joined blocks) tail,
        length-append block (joined blocks),
        sized.0,
      ))
  receive-blocks t (r ∷ rs) tail blocks out h sized rest fits e run =
      let u = turn-Taken t r (all_bytes rs) tail blocks out h sized rest fits.0 e run in
      let (t', ran, packet, state, queue) =
        receive-blocks u.next rs tail u.more out u.ready u.sized rest fits.1 u.kept u.same in
      (t', rw (u.made) ran, packet, state, queue)
