-- ===== src/Pi/Opening.antt =====
-- What `startSerial` (RPi/serial.cpp) does.
use cg2111a_b.Base.{
  ℕ, zero, suc, ◌+◌, ◌≤◌, ◌<◌, ◌≡◌, refl, sym, ap, ◌∙◌, arith, true, false, Bool, false≢true, List,
  ◌∷◌, ◌||◌, Bool-cases, inl, inr,
}
use native.Mathlib.Decide.{dec_lt}
use cg2111a_b.Base.Int.{ℤ, pos, negsuc, ltb_ℤ}
use cg2111a_b.Pi.{Pi, Options, Event, tcsetattr}
use cg2111a_b.Pi.Serial.{Ports, connect, start_serial, framed, unflowed, with_parity, data_bits}

-- How the attempts after the first `made` ended, when `left` of them were allowed.
pub data Outcome (attempt : ℕ → ℤ) (made left : ℕ) (fd : ℤ) : Type 0 where
  found :
      (k : ℕ)
      → made < k
      → k ≤ made + left
      → fd ≡ attempt k
      → ltb_ℤ fd (pos 0) ≡ false
      → ((j : ℕ) → made < j → j < k → ltb_ℤ (attempt j) (pos 0) ≡ true)
      → Outcome attempt made left fd
  gave_up :
      ltb_ℤ fd (pos 0) ≡ true
      → ((j : ℕ) → made < j → j ≤ made + left → ltb_ℤ (attempt j) (pos 0) ≡ true)
      → Outcome attempt made left fd

module _ (attempt : ℕ → ℤ) where
  first_found :
      (made left : ℕ) (fd : ℤ)
      → fd ≡ attempt (suc made)
      → ltb_ℤ fd (pos 0) ≡ false
      → Outcome attempt made (suc left) fd
  first_found made left fd same ok =
      found (suc made) (omega arith) (omega arith) same ok (λ j low high. absurd (omega arith))

  -- One more attempt that failed, before the ones that did.
  one_more :
      (made j : ℕ)
      → made < j
      → ltb_ℤ (attempt (suc made)) (pos 0) ≡ true
      → (suc made < j → ltb_ℤ (attempt j) (pos 0) ≡ true)
      → ltb_ℤ (attempt j) (pos 0) ≡ true
  one_more made j low bad later = elim (dec_lt (suc made) j) [
    | yes p ↦ later p
    | no p ↦ let same : j ≡ suc made = omega arith in rw same bad
  ]

  first_failed :
      (made left : ℕ) (fd : ℤ)
      → ltb_ℤ (attempt (suc made)) (pos 0) ≡ true
      → Outcome attempt (suc made) left fd
      → Outcome attempt made (suc left) fd
  first_failed made left fd bad (found k low high same ok earlier) =
      found k (omega arith) (omega arith) same ok
        (λ j low' high'. one_more made j low' bad (λ p. earlier j p high'))
  first_failed made left fd bad (gave_up neg all) =
      gave_up neg (λ j low high. one_more made j low bad (λ p. all j p (omega arith)))

module _ (d : Ports) {Float : Type 0} where
  connect_done :
      (max left made : ℕ) (s : Pi Float)
      → ltb_ℤ s.fd (pos 0) ≡ false
      → connect d max left made s ≡ s
  unfolding connect
  connect_done max zero made s e = refl
  connect_done max (suc left) made s e = rw e refl

  connect-Outcome :
      (max left made : ℕ) (s : Pi Float)
      → ltb_ℤ s.fd (pos 0) ≡ true
      → Outcome d.open_port made left (connect d max left made s).fd
  unfolding connect
  connect-Outcome max zero made s e = gave_up e (λ j low high. absurd (omega arith))
  connect-Outcome max (suc left) made s e =
      rw e (elim (Bool-cases (ltb_ℤ (d.open_port (suc made)) (pos 0))) [
        | inl bad ↦
            rw bad
              (first_failed d.open_port made left _ bad (connect-Outcome max left (suc made) _ bad))
        | inr ok ↦ rw ok (
            rw (connect_done max left (suc made) _ ok)
              (first_found d.open_port made left (d.open_port (suc made)) refl ok))
      ])

  start_serial_port :
      (baud byte_size parity stop_bits max : ℕ) (s : Pi Float)
      → (start_serial d baud byte_size parity stop_bits max s).fd
        ≡ (connect d max max 0 (record s { fd = negsuc 0 })).fd
  unfolding start_serial
  start_serial_port baud byte_size parity stop_bits max s =
      elim (Bool-cases (ltb_ℤ (connect d max max 0 (record s { fd = negsuc 0 })).fd (pos 0))) [
        | inl e ↦ rw e refl
        | inr e ↦ rw e refl
      ]

  -- `startSerial` makes at most `maxAttempts` attempts, and the port is the one that the first attempt that
  -- did not fail opened; when all of them failed the port is not open.
  pub start_serial-Outcome :
      (baud byte_size parity stop_bits max : ℕ) (s : Pi Float)
      → Outcome d.open_port 0 max (start_serial d baud byte_size parity stop_bits max s).fd
  start_serial-Outcome baud byte_size parity stop_bits max s =
      rw start_serial_port (connect-Outcome max max 0 (record s { fd = negsuc 0 }) refl)

-- What the manual of `cfmakeraw` says: no handling of breaks and parity errors, no bytes of the
-- input changed or dropped, no lines, echoes and signals, no processing of the output, 8 data bits
-- and no parity.
pub record IsRaw (o : Options) : Type 0 where
  pub unbroken : (o.ignbrk || (o.brkint || o.parmrk)) ≡ false
  pub unchanged_input : (o.istrip || (o.inlcr || (o.igncr || (o.icrnl || o.ixon)))) ≡ false
  pub unechoed : (o.echo || (o.echonl || (o.icanon || (o.isig || o.iexten)))) ≡ false
  pub unchanged_output : o.opost ≡ false
  pub eight_bits : o.csize ≡ 8
  pub no_parity : o.parenb ≡ false

-- 8 data bits, no parity, one stop bit, no flow control, and every byte of the input and the output
-- passed on as it is.
pub record Is8n1 (o : Options) : Type 0 where
  pub raw : IsRaw o
  pub one_stop_bit : o.cstopb ≡ false
  pub no_hardware_flow : o.crtscts ≡ false
  pub no_software_flow : (o.ixon || (o.ixoff || o.ixany)) ≡ false
  pub no_output_flags : o.other_output ≡ false

without_flow :
    (istrip inlcr igncr icrnl ixon : Bool)
    → (istrip || (inlcr || (igncr || (icrnl || ixon)))) ≡ false
    → (istrip || (inlcr || (igncr || (icrnl || false)))) ≡ false
without_flow false false false false ixon h = refl
without_flow true inlcr igncr icrnl ixon h = h
without_flow false true igncr icrnl ixon h = h
without_flow false false true icrnl ixon h = h
without_flow false false false true ixon h = h

without_lines :
    (echo echonl icanon isig iexten : Bool)
    → (echo || (echonl || (icanon || (isig || iexten)))) ≡ false
    → (echonl || iexten) ≡ false
without_lines false false false false iexten h = h
without_lines true echonl icanon isig iexten h = absurd (false≢true (sym h))
without_lines false true icanon isig iexten h = h
without_lines false false true isig iexten h = absurd (false≢true (sym h))
without_lines false false false true iexten h = absurd (false≢true (sym h))

-- The settings of `main` on top of it.
framed-IsRaw : (baud : ℕ) (o : Options) → IsRaw o → IsRaw (unflowed (framed baud 8 b'N' 1 o))
unfolding framed unflowed with_parity data_bits
framed-IsRaw baud o h = record {
  unbroken = h.unbroken;
  unchanged_input = without_flow o.istrip o.inlcr o.igncr o.icrnl o.ixon h.unchanged_input;
  unechoed = without_lines o.echo o.echonl o.icanon o.isig o.iexten h.unechoed;
  unchanged_output = h.unchanged_output;
  eight_bits = refl;
  no_parity = refl;
}

module _ (d : Ports) {Float : Type 0} where
  open d use {attributes, makeraw}

  -- When the port is open after `startSerial` with the arguments of `main`, and `cfmakeraw` does
  -- what its manual says, the last call sets the port to 8 data bits, no parity, one stop bit and
  -- no flow control, with no byte of the input or the output changed, dropped or acted on, at the
  -- speed that was asked for, whatever the port's attributes were.
  pub start_serial-Is8n1 :
      (baud max : ℕ) (s : Pi Float)
      → ((o : Options) → IsRaw (makeraw o))
      → ltb_ℤ (start_serial d baud 8 b'N' 1 max s).fd (pos 0) ≡ false
      → (o : Options) × (rest : List (Event Float)) × ((start_serial d baud 8 b'N' 1 max s).calls
          ≡ tcsetattr (start_serial d baud 8 b'N' 1 max s).fd o ∷ rest)
        × Is8n1 o
        × (o.ospeed ≡ baud)
        × (o.ispeed ≡ baud)
  unfolding start_serial framed unflowed with_parity data_bits
  start_serial-Is8n1 baud max s raw opened =
      let s1 = connect d max max 0 (record s { fd = negsuc 0 }) in
      let e : ltb_ℤ s1.fd (pos 0) ≡ false =
        sym (ap (λ z. ltb_ℤ z (pos 0)) (start_serial_port d baud 8 b'N' 1 max s)) ∙ opened in
      rw e (
        _,
        _,
        refl,
        record {
          raw = framed-IsRaw baud (makeraw (attributes s1.fd)) (raw (attributes s1.fd));
          one_stop_bit = refl;
          no_hardware_flow = refl;
          no_software_flow = refl;
          no_output_flags = refl;
        },
        refl,
        refl,
      )
