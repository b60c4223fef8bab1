-- ===== src/Tls/Echo.antt =====
-- The worker of the echo server (server/test_tls_server.cpp), with `sslRead` and `sslWrite` of
-- server/tls_common_lib.cpp.
use cg2111a_b.Base.{Option, some, ◌>>=◌, ℕ, Bool, true, List, [], ◌∷◌, if◌then◌else◌, String}
use cg2111a_b.Base.Int.{ℤ, pos, leb_ℤ, ltb_ℤ}
use cg2111a_b.Memory.{overwrite, c_string}

abbrev pub buffer_len : ℕ
buffer_len = 128

-- What a turn of the loop meets: some bytes that `sslRead` gives, the end of the connection or an
-- error. With the bytes come what the turn's local array, which is not initialised, held before
-- them, and what `sslWrite` answers to the echo.
pub data Exchange : Type 0 where
  read_bytes : List ℕ → List ℕ → ℤ → Exchange
  closed : Exchange
  broken : Exchange

pub data Event : Type 0 where
  printf : String → List ℕ → Event
  echoed : List ℕ → Event
  perror : String → Event
  ended : Event

-- A turn of the loop over the calls so far, the last one first, with the value of `exit` after it.
-- `%s` reads the array up to its terminator, and past its end when it has none.
unfoldable pub turn : Exchange → List Event → Option (Bool × List Event)
turn (read_bytes held bytes answer) calls = do
  message ← c_string (overwrite held bytes)
  let sent = echoed (overwrite held bytes) ∷ printf "Read %s. Echoing.\n" message ∷ calls
  let told = if ltb_ℤ answer (pos 0) then perror "Error writing to network: " ∷ sent else sent
  some (leb_ℤ answer (pos 0), told)
turn closed calls = some (true, calls)
turn broken calls = some (true, perror "Error reading from network: " ∷ calls)

-- The worker over the exchanges so far.
unfoldable pub work : List Exchange → List Event → Option (List Event)
unfolding turn
work [] calls = some calls
work (e ∷ es) calls = do
  (exit, calls') ← turn e calls
  let rest = work es calls'
  if exit then some (ended ∷ calls') else rest
