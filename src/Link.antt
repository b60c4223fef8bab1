-- ===== src/Link.antt =====
-- The receiving threads: `receiveThread` of RPi/usart.cpp, and `uartReceiveThread` of
-- server/tls-alex-server.cpp, which is the same loop. What is done with a packet and with an error
-- is a parameter.
pub mod Stream
pub mod Turns
pub mod Delivery
pub mod Blocks
pub mod Chains
pub mod Tests
use cg2111a_b.Base.{ℕ, List, [], ◌∷◌, Option, none, some, ◌>>=◌, if◌then◌else◌, leb, ltb, length}
use cg2111a_b.Memory.{overwrite}
use cg2111a_b.Serialize.{Receiver, Result, packet_size, packet_ok, packet_incomplete, deserialize}

-- What `serialRead` did: `len` bytes into the buffer, or an error, -1.
pub data Read : Type 0 where
  got : List ℕ → Read
  failed : Read

module _ {ℓ} {S : Type ℓ} (handle_packet : List ℕ → S → S) (handle_error : Result → S → S) where
  -- The locals of the thread, the static variables of `deserialize`, and the handlers' state.
  -- The local `counter` is only ever written.
  pub record Thread : Type ℓ where
    pub buffer : List ℕ
    pub packet : List ℕ
    pub receiver : Receiver
    pub state : S

  abbrev pub handled : Result → List ℕ → S → S
  handled packet_ok packet s = handle_packet packet s
  handled packet_incomplete packet s = s
  handled result packet s = handle_error result s

  -- One turn of the loop. A read of more bytes than the buffer has room for is a fault.
  unfoldable pub turn : Thread → Read → Option Thread
  turn t failed = some t
  turn t (got chunk) =
      let read = overwrite t.buffer chunk in
      let called = (do
        (receiver', packet', result) ← deserialize t.receiver read (length chunk) t.packet
        some (record {
          buffer = read;
          packet = packet';
          receiver = receiver';
          state = handled result packet' t.state;
        })) in
      if leb (length chunk) packet_size
      then (if ltb 0 (length chunk) then called else some t)
      else none

  -- The loop over the reads that were made so far.
  unfoldable pub receive : Thread → List Read → Option Thread
  unfolding turn
  receive t [] = some t
  receive t (r ∷ rs) = do t' ← turn t r; receive t' rs
