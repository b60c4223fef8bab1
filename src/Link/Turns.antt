-- ===== src/Link/Turns.antt =====
-- One turn of the loop of a receiving thread (RPi/usart.cpp, server/tls-alex-server.cpp) in a run.
use cg2111a_b.Base.{
  ℕ, ◌≤◌, ◌<◌, ◌≡◌, refl, sym, ap, ◌∙◌, arith, List, [], ◌∷◌, ◌++◌, some, length, drop,
  length-append, append_assoc, le→leb, lt→ltb, All,
}
use native.Mathlib.Decide.{dec_le}
use cg2111a_b.Memory.{overwrite}
use cg2111a_b.Memory.Splice.{overwrite_all, length-overwrite}
use cg2111a_b.Packet.{packet_bytes_len}
use cg2111a_b.Serialize.{Receiver, Result, packet_size, packet_ok, packet_incomplete, deserialize}
use cg2111a_b.Serialize.Pending.{pending, IsValid}
use cg2111a_b.Serialize.Calls.{deserialize_waits, deserialize_delivers}
use cg2111a_b.Link.{Read, got, failed, Thread, turn, handled}
use cg2111a_b.Link.Stream.{Sent, IsSent, stream, bytes_of, overwrite_front, first_frame}

module _ {ℓ} {S : Type ℓ} (handle_packet : List ℕ → S → S) (handle_error : Result → S → S) where
  -- Every packet handed to the handler, in the order of sending.
  abbrev pub handle_all : List Sent → S → S
  handle_all [] s = s
  handle_all (m ∷ ms) s = handle_all ms (handle_packet m.structure s)

  pub record IsRunning (t : Thread handle_packet handle_error) : Type 0 where
    pub buffer_size : length t.buffer ≡ packet_size
    pub packet_len : length t.packet ≡ packet_bytes_len
    pub valid : IsValid t.receiver

  -- A turn keeps the stream: what waits and what is still to be read is what is still to come.
  pub record Turned (t : Thread handle_packet handle_error) (r : Read) (later : List ℕ)
      (ms : List Sent) : Type ℓ where
    pub next : Thread handle_packet handle_error
    pub more : List Sent
    pub sent : All IsSent more
    pub made : turn handle_packet handle_error t r ≡ some next
    pub running : IsRunning next
    pub kept : pending next.receiver ++ later ≡ stream more
    pub same : handle_all more next.state ≡ handle_all ms t.state

  pub turn_call :
      (t : Thread handle_packet handle_error) (b : ℕ) (chunk : List ℕ) (after : Receiver)
      (packet' : List ℕ) (result : Result)
      → length (b ∷ chunk) ≤ packet_size
      → length t.buffer ≡ packet_size
      → deserialize t.receiver
          ((b ∷ chunk) ++ drop (length (b ∷ chunk)) t.buffer)
          (length (b ∷ chunk))
          t.packet
        ≡ some (after, packet', result)
      → turn handle_packet handle_error t (got (b ∷ chunk))
        ≡ some (record {
          buffer = overwrite t.buffer (b ∷ chunk);
          packet = packet';
          receiver = after;
          state = handled handle_packet handle_error result packet' t.state;
        })
  unfolding turn
  turn_call t b chunk after packet' result short size call =
      rw
        (
          le→leb (length (b ∷ chunk)) packet_size short,
          lt→ltb 0 (length (b ∷ chunk)) (omega arith),
          ap (λ read. deserialize t.receiver read (length (b ∷ chunk)) t.packet)
              (overwrite_front t.buffer (b ∷ chunk) (omega arith)),
          call,
        )
        refl

  turn_waits :
      (t : Thread handle_packet handle_error) (b : ℕ) (chunk later : List ℕ) (ms : List Sent)
      → IsRunning t
      → All IsSent ms
      → length (b ∷ chunk) ≤ packet_size
      → length (pending t.receiver ++ (b ∷ chunk)) < packet_size
      → (pending t.receiver ++ (b ∷ chunk)) ++ later ≡ stream ms
      → Turned t (got (b ∷ chunk)) later ms
  turn_waits t b chunk later ms h sent short few e =
      let c =
        deserialize_waits t.receiver (b ∷ chunk) (drop (length (b ∷ chunk)) t.buffer) t.packet
          h.valid short few in
      record {
        next = record {
          buffer = overwrite t.buffer (b ∷ chunk);
          packet = t.packet;
          receiver = c.after;
          state = t.state;
        };
        more = ms;
        sent = sent;
        made = turn_call t b chunk c.after t.packet packet_incomplete short h.buffer_size c.call;
        running = record {
          buffer_size = length-overwrite t.buffer (b ∷ chunk) ∙ h.buffer_size;
          packet_len = h.packet_len;
          valid = c.valid;
        };
        kept = ap (λ q. q ++ later) c.left ∙ e;
        same = refl;
      }

  turn_delivers :
      (t : Thread handle_packet handle_error) (b : ℕ) (chunk later : List ℕ) (ms : List Sent)
      → IsRunning t
      → All IsSent ms
      → length (b ∷ chunk) ≤ packet_size
      → packet_size ≤ length (pending t.receiver ++ (b ∷ chunk))
      → (pending t.receiver ++ (b ∷ chunk)) ++ later ≡ stream ms
      → Turned t (got (b ∷ chunk)) later ms
  turn_delivers t b chunk later [] h sent short many e =
      absurd (omega (arith, ap length e, length-append (pending t.receiver ++ (b ∷ chunk)) later))
  turn_delivers t b chunk later (m ∷ ms) h sent short many e =
      let (first, others) =
        first_frame (pending t.receiver ++ (b ∷ chunk)) later m ms sent.0 many e in
      let c =
        deserialize_delivers t.receiver (b ∷ chunk) (drop (length (b ∷ chunk)) t.buffer) t.packet
          h.valid short m.slot m.structure sent.0.0 (omega (arith, sent.0.1))
          (omega (arith, sent.0.1, h.packet_len)) many first in
      let whole : overwrite t.packet m.structure ≡ m.structure =
        overwrite_all t.packet m.structure (sent.0.1 ∙ sym h.packet_len) in
      record {
        next = record {
          buffer = overwrite t.buffer (b ∷ chunk);
          packet = overwrite t.packet m.structure;
          receiver = c.after;
          state = handle_packet (overwrite t.packet m.structure) t.state;
        };
        more = ms;
        sent = sent.1;
        made =
            turn_call t b chunk c.after (overwrite t.packet m.structure) packet_ok short
              h.buffer_size c.call;
        running = record {
          buffer_size = length-overwrite t.buffer (b ∷ chunk) ∙ h.buffer_size;
          packet_len = length-overwrite t.packet m.structure ∙ h.packet_len;
          valid = c.valid;
        };
        kept = ap (λ q. q ++ later) c.left ∙ others;
        same = ap (λ p. handle_all ms (handle_packet p t.state)) whole;
      }

  turn_idle :
      (t : Thread handle_packet handle_error) (r : Read) (later : List ℕ) (ms : List Sent)
      → IsRunning t
      → All IsSent ms
      → turn handle_packet handle_error t r ≡ some t
      → pending t.receiver ++ later ≡ stream ms
      → Turned t r later ms
  turn_idle t r later ms h sent made e = record {
    next = t;
    more = ms;
    sent = sent;
    made = made;
    running = h;
    kept = e;
    same = refl;
  }

  pub turn-Turned :
      (t : Thread handle_packet handle_error) (r : Read) (later : List ℕ) (ms : List Sent)
      → IsRunning t
      → All IsSent ms
      → length (bytes_of r) ≤ packet_size
      → pending t.receiver ++ (bytes_of r ++ later) ≡ stream ms
      → Turned t r later ms
  turn-Turned t failed later ms h sent short e =
      turn_idle t failed later ms h sent (unfold turn in refl) e
  turn-Turned t (got []) later ms h sent short e =
      turn_idle t (got []) later ms h sent (unfold turn in refl) e
  turn-Turned t (got (b ∷ chunk)) later ms h sent short e =
      let a = pending t.receiver ++ (b ∷ chunk) in
      let e' : a ++ later ≡ stream ms = append_assoc (pending t.receiver) (b ∷ chunk) later ∙ e in
      elim (dec_le packet_size (length a)) [
        | yes many ↦ turn_delivers t b chunk later ms h sent short many e'
        | no few ↦ turn_waits t b chunk later ms h sent short (omega arith) e'
      ]
