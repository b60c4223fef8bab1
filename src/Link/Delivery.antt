-- ===== src/Link/Delivery.antt =====
-- The packets of a stream, however the reads cut it, reach the handler whole and in order.
use cg2111a_b.Base.{
  ℕ, ◌≡◌, refl, sym, ap, ◌∙◌, arith, List, [], ◌∷◌, ◌++◌, some, length, length-append, append-nil,
  All,
}
use cg2111a_b.Serialize.{Result}
use cg2111a_b.Serialize.Pending.{pending}
use cg2111a_b.Serialize.Roundtrip.{frame}
use cg2111a_b.Serialize.Calls.{length-pending-lt}
use cg2111a_b.Link.{Read, Thread, receive}
use cg2111a_b.Link.Stream.{Sent, IsSent, stream, all_bytes, Fits, length-frame}
use cg2111a_b.Link.Turns.{handle_all, IsRunning, turn-Turned}

module _ {ℓ} {S : Type ℓ} (handle_packet : List ℕ → S → S) (handle_error : Result → S → S) where
  -- From a running thread, with whole packets of the size of a `TPacket` made by `serialize` in
  -- the stream and reads of at most 140 bytes: however the reads cut the stream, each packet that
  -- was sent reaches the handler, once, whole and in the order of sending; no turn faults, no
  -- error is reported and no byte is left over.
  pub receive-stream :
      (t : Thread handle_packet handle_error) (rs : List Read) (ms : List Sent)
      → IsRunning handle_packet handle_error t
      → All IsSent ms
      → Fits rs
      → pending t.receiver ++ all_bytes rs ≡ stream ms
      → (t' : Thread handle_packet handle_error) × (receive handle_packet handle_error t rs
          ≡ some t')
        × (t'.state ≡ handle_all handle_packet handle_error ms t.state)
        × (pending t'.receiver ≡ [])
  unfolding receive
  receive-stream t [] [] h sent fits e = (t, refl, refl, sym (append-nil _) ∙ e)
  receive-stream t [] (m ∷ ms) h sent fits e = absurd (
      omega (
        arith,
        ap length e,
        length-append (pending t.receiver) [],
        length-pending-lt t.receiver h.valid,
        length-append (frame m.slot m.structure) (stream ms),
        length-frame m sent.0,
      ))
  receive-stream t (r ∷ rs) ms h sent fits e =
      let u = turn-Turned handle_packet handle_error t r (all_bytes rs) ms h sent fits.0 e in
      let (t', run, state, queue) =
        receive-stream u.next rs u.more u.running u.sent fits.1 u.kept in
      (t', rw (u.made) run, state ∙ u.same, queue)
