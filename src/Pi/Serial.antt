-- ===== src/Pi/Serial.antt =====
-- RPi/serial.cpp: opening the port, reading, writing. (server/serial.cpp is the same text.)
use cg2111a_b.Base.{ℕ, zero, suc, true, false, List, [], ◌∷◌, if◌then◌else◌, ◌==◌, ◌||◌}
use cg2111a_b.Base.Int.{ℤ, pos, negsuc, leb_ℤ, ltb_ℤ}
use cg2111a_b.Pi.{Pi, Options, int, emit, write, printf, sleep, perror, fcntl, tcsetattr, close}

-- `serialWrite`.
unfoldable pub serial_write : {Float : Type 0} → List ℕ → Pi Float → Pi Float
serial_write bytes s = if leb_ℤ (pos 0) s.fd then emit (write bytes) s else s

-- `endSerial`.
unfoldable pub end_serial : {Float : Type 0} → Pi Float → Pi Float
end_serial s = if ltb_ℤ (pos 0) s.fd then emit (close s.fd) s else s

-- `_serOptions` before anything is stored in it: static storage is zeros, and CS5 is 0.
abbrev zero_options : Options
zero_options = record {
  ispeed = 0;
  ospeed = 0;
  csize = 5;
  clocal = false;
  cread = false;
  parenb = false;
  parodd = false;
  cstopb = false;
  crtscts = false;
  inpck = false;
  istrip = false;
  ixon = false;
  ixoff = false;
  ixany = false;
  icanon = false;
  echo = false;
  echoe = false;
  isig = false;
  ignbrk = false;
  brkint = false;
  parmrk = false;
  inlcr = false;
  igncr = false;
  icrnl = false;
  echonl = false;
  iexten = false;
  opost = false;
  other_output = false;
}

-- The switch on the parity.
unfoldable pub with_parity : ℕ → Options → Options
with_parity parity o =
    let checked = record o { parenb = true; inpck = true; istrip = true } in
    if parity == b'o' || parity == b'O'
    then record checked { parodd = true }
    else (if parity == b'e' || parity == b'E'
        then record checked { parodd = false }
        else record o { parenb = false })

-- The switch on the number of data bits.
unfoldable pub data_bits : ℕ → ℕ
data_bits n = if n == 5 then 5 else (if n == 6 then 6 else (if n == 7 then 7 else 8))

-- The settings that are made when the port is open, after `cfmakeraw`.
unfoldable pub framed : ℕ → ℕ → ℕ → ℕ → Options → Options
unfolding with_parity data_bits
framed baud byte_size parity stop_bits o =
    let fast = record o { ispeed = baud; ospeed = baud; clocal = true; cread = true } in
    record (with_parity parity fast) { cstopb = stop_bits == 2; csize = data_bits byte_size }

-- The settings that are made in any case; `&= OPOST` keeps that flag and clears the others.
unfoldable pub unflowed : Options → Options
unflowed o = record o {
  crtscts = false;
  ixon = false;
  ixoff = false;
  ixany = false;
  icanon = false;
  echo = false;
  echoe = false;
  isig = false;
  other_output = false;
}

-- The operating system: what each attempt to open the port gives, the attributes of an open port,
-- and `cfmakeraw`.
pub record Ports : Type 0 where
  pub open_port : ℕ → ℤ
  pub attributes : ℤ → Options
  pub makeraw : Options → Options

module _ (d : Ports) {Float : Type 0} where
  open d use {open_port, attributes, makeraw}

  -- The loop of attempts, `left` of them still allowed and `attempt` made.
  unfoldable pub connect : ℕ → ℕ → ℕ → Pi Float → Pi Float
  connect max zero attempt s = s
  connect max (suc left) attempt s =
      let shown =
        emit
          (printf "ATTEMPTING TO CONNECT TO SERIAL. ATTEMPT # %d of %d.\n"
            (int (pos (suc attempt)) ∷ int (pos max) ∷ []))
          s in
      let opened = record shown { fd = open_port (suc attempt) } in
      let tried =
        if ltb_ℤ opened.fd (pos 0)
        then emit (sleep 5) (emit (printf "FAILED. TRYING AGAIN IN 5 SECONDS\n" []) opened)
        else opened in
      let again = connect max left (suc attempt) tried in if ltb_ℤ s.fd (pos 0) then again else s

  unfoldable pub start_serial : ℕ → ℕ → ℕ → ℕ → ℕ → Pi Float → Pi Float
  unfolding connect framed unflowed
  start_serial baud byte_size parity stop_bits max s =
      let s1 = connect max max 0 (record s { fd = negsuc 0 }) in
      let given_up =
        emit (tcsetattr s1.fd (unflowed zero_options))
          (emit (perror "GIVING UP. Unable to open serial port.") s1) in
      let set =
        emit
          (tcsetattr s1.fd
            (unflowed (framed baud byte_size parity stop_bits (makeraw (attributes s1.fd)))))
          (emit (fcntl s1.fd) s1) in
      if ltb_ℤ s1.fd (pos 0) then given_up else set
