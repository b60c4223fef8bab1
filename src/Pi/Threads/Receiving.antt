-- ===== src/Pi/Threads/Receiving.antt =====
-- What the loop of `receiveThread` (RPi/usart.cpp) may change, whatever it reads.
use cg2111a_b.Base.{ℕ, ◌≡◌, sym, ◌∙◌, List, Option, some, >>=-eq-some, partly, wholly}
use cg2111a_b.Packet.{as_packet}
use cg2111a_b.Serialize.{Result}
use cg2111a_b.Link.{Read, Thread, receive}
use cg2111a_b.Link.Chains.{receive-Steps}
use cg2111a_b.Pi.{Pi, World}
use cg2111a_b.Pi.Handlers.{handle_packet, packet_error}
use cg2111a_b.Pi.Arrival.{cast}
use cg2111a_b.Pi.Quiet.{IsQuiet, IsQuiet-refl, IsQuiet-trans, handled-IsQuiet, packet_error-IsQuiet}
use cg2111a_b.Pi.Sound.{some_inj}

-- What the thread does with a packet and with an error, and its state: that of the program, or a
-- fault.
abbrev pub on_packet : (w : World) → List ℕ → Option (Pi w.Float) → Option (Pi w.Float)
on_packet w = cast (partly (handle_packet w)) (wholly packet_error)

abbrev pub on_error : (w : World) → Result → Option (Pi w.Float) → Option (Pi w.Float)
on_error w = wholly packet_error

abbrev pub Receiving : World → Type 0
Receiving w = Thread (on_packet w) (on_error w)

module _ (w : World) where
  open w use {Float}

  -- Where the later of two states is no fault, the earlier was none, and little has changed.
  Later : Option (Pi Float) → Option (Pi Float) → Type 0
  Later m m' = (s' : Pi Float) → m' ≡ some s' → (s : Pi Float) × (m ≡ some s) × IsQuiet s s'

  same-Later : (m : Option (Pi Float)) → Later m m
  unfolding Later
  same-Later m s' e = (s', e, IsQuiet-refl s')

  joined-Later : (m n o : Option (Pi Float)) → Later m n → Later n o → Later m o
  unfolding Later
  joined-Later m n o h k s' e =
      let (s1, e1, q1) = k s' e in let (s, e0, q0) = h s1 e1 in (s, e0, IsQuiet-trans s s1 s' q0 q1)

  packet-Later : (bytes : List ℕ) (m : Option (Pi Float)) → Later m (on_packet w bytes m)
  unfolding Later
  packet-Later bytes m s' e =
      let (s, was, run) = >>=-eq-some m (handle_packet w (as_packet bytes)) e in
      (s, was, handled-IsQuiet w (as_packet bytes) s s' run)

  error-Later : (r : Result) (m : Option (Pi Float)) → Later m (on_error w r m)
  unfolding Later
  error-Later r m s' e =
      let (s, was, run) = >>=-eq-some m (λ s. some (packet_error r s)) e in
      let same : packet_error r s ≡ s' = some_inj run in
      (s, was, rw (← same) (packet_error-IsQuiet r s))

  -- Whatever bytes `receiveThread` reads, and however many packets and errors it takes them for, a
  -- run of its loop that faults nowhere sends nothing and changes neither the port, the mode, the
  -- speed, the delay, the number of commands, the last command, the screen nor the exit flag.
  pub receive-IsQuiet :
      (rs : List Read) (t t' : Receiving w) (s s' : Pi Float)
      → receive (on_packet w) (on_error w) t rs ≡ some t'
      → t.state ≡ some s
      → t'.state ≡ some s'
      → IsQuiet s s'
  unfolding Later
  receive-IsQuiet rs t t' s s' run before after =
      let (s0, e, quiet) =
        receive-Steps (on_packet w) (on_error w) Later same-Later joined-Later packet-Later
          error-Later rs t t' run s' after in
      let same : s0 ≡ s = some_inj (sym e ∙ before) in rw (← same) quiet
