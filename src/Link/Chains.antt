-- ===== src/Link/Chains.antt =====
-- What the turns of a receiving thread add up to (`receiveThread` of RPi/usart.cpp,
-- `uartReceiveThread` of server/tls-alex-server.cpp).
use cg2111a_b.Base.{
  ℕ, ◌≡◌, List, [], ◌∷◌, some, none≢some, >>=-eq-some, if-cases, inl, inr, ltb, leb, length,
}
use cg2111a_b.Memory.{overwrite}
use cg2111a_b.Serialize.{
  Result, packet_size, packet_ok, packet_bad, packet_checksum_bad, packet_incomplete,
  packet_complete, deserialize,
}
use cg2111a_b.Link.{Read, got, failed, Thread, handled, turn, receive}
use cg2111a_b.Pi.Sound.{some_inj}

-- `Steps` relates the states of the handlers, and both handlers are steps.
module _ {S : Type 0} (handle_packet : List ℕ → S → S) (handle_error : Result → S → S)
    (Steps : S → S → Type 0) (here : (s : S) → Steps s s)
    (joined : (s t u : S) → Steps s t → Steps t u → Steps s u)
    (packet_step : (bytes : List ℕ) (s : S) → Steps s (handle_packet bytes s))
    (error_step : (r : Result) (s : S) → Steps s (handle_error r s)) where
  handled_step :
      (r : Result) (bytes : List ℕ) (s : S) → Steps s (handled handle_packet handle_error r bytes s)
  handled_step packet_ok bytes s = packet_step bytes s
  handled_step packet_incomplete bytes s = here s
  handled_step packet_bad bytes s = error_step packet_bad s
  handled_step packet_checksum_bad bytes s = error_step packet_checksum_bad s
  handled_step packet_complete bytes s = error_step packet_complete s

  turn-Steps :
      (t t' : Thread handle_packet handle_error) (r : Read)
      → turn handle_packet handle_error t r ≡ some t'
      → Steps t.state t'.state
  unfolding turn
  turn-Steps t t' failed run = let same : t ≡ t' = cc in rw same (here t'.state)
  turn-Steps t t' (got chunk) run = elim (if-cases (leb (length chunk) packet_size) _ _ _ run) [
    | inl (_, run2) ↦ elim (if-cases (ltb 0 (length chunk)) _ _ _ run2) [
      | inl (_, called) ↦
          let ((r', packet', result), made, e) =
            >>=-eq-some (deserialize t.receiver (overwrite t.buffer chunk) (length chunk) t.packet)
              _ called in
          let same : record {
            buffer = overwrite t.buffer chunk;
            packet = packet';
            receiver = r';
            state = handled handle_packet handle_error result packet' t.state;
          }
              ≡ t' =
            some_inj e in
          rw (← same) (handled_step result packet' t.state)
      | inr (_, idle) ↦ let same : t ≡ t' = cc in rw same (here t'.state)
    ]
    | inr (_, fault) ↦ absurd (none≢some fault)
  ]

  pub receive-Steps :
      (rs : List Read) (t t' : Thread handle_packet handle_error)
      → receive handle_packet handle_error t rs ≡ some t'
      → Steps t.state t'.state
  unfolding receive
  receive-Steps [] t t' run = let same : t ≡ t' = cc in rw same (here t'.state)
  receive-Steps (r ∷ rs) t t' run =
      let (t1, step, rest) = >>=-eq-some (turn handle_packet handle_error t r) _ run in
      joined t.state t1.state t'.state (turn-Steps t t1 r step) (receive-Steps rs t1 t' rest)
