-- ===== src/Tls/Listener.antt =====
-- `_tls_listener` of server/make_tls_server.cpp from its loop on, with the handlers of the signals.
use cg2111a_b.Base.{ℕ, Bool, true, List, [], ◌∷◌, Option, none, some, if◌then◌else◌}
use cg2111a_b.Base.Int.{ℤ}
use cg2111a_b.Tls.{
  Ssl, Openssl, Tls, printf, close_listener, context_free, thread_cleanup, evp_cleanup, call,
}
use cg2111a_b.Tls.Session.{connect_ssl, print_certificate, verify_certificate}

pub data Signal : Type 0 where
  interrupt terminate : Signal

-- What happens while `accept` blocks: a signal, or a connection, whose descriptor and address it
-- returns.
pub data Arrival : Type 0 where
  signalled : Signal → Arrival
  accepted : ℤ → List ℕ → Arrival

-- `breakHandler` and `termHandler`.
unfoldable pub handle_signal : Signal → Tls → Tls
handle_signal interrupt s =
    record (call (printf "\n\nEXITING. WHY DID YOU PRESS CTRL-C??\n\n" []) s) { exit_flag = true }
handle_signal terminate s =
    record (call (printf "\n\nEXITING. WHY DID YOU TERMINATE ME??\n\n" []) s) { exit_flag = true }

abbrev pub spawn : Ssl → Tls → Tls
spawn ssl s = record s { spawned = ssl ∷ s.spawned }

-- What follows the loop.
abbrev shut : Tls → Tls
shut s = call evp_cleanup (call thread_cleanup (call context_free (call close_listener s)))

-- The settings of `createServer`: whether the client is verified, and its name.
module _ (o : Openssl) (verify_peer : Bool) (client_name : List ℕ) where
  abbrev pub expected_name : Option (List ℕ)
  expected_name = if verify_peer then some client_name else none

  -- The rest of the body of the loop, once there is a session.
  unfoldable pub admit : List ℕ → Ssl → Tls → Tls
  unfolding print_certificate
  admit address ssl s =
      let shown = print_certificate o ssl s in
      if verify_peer
      then (if verify_certificate o ssl
          then spawn ssl (call (printf "SSL CLIENT CERTIFICATE IS VALID.\n" []) shown)
          else call (printf "Certificate error for %s\n" address) shown)
      else spawn ssl s

  abbrev pub admitted : List ℕ → Option Ssl × Tls → Tls
  admitted address (none, s) = s
  admitted address (some ssl, s) = admit address ssl s

  -- The body of the loop, from the return of `accept` on.
  unfoldable pub serve : ℤ → List ℕ → Tls → Tls
  unfolding connect_ssl admit
  serve fd address s =
      admitted address
        (connect_ssl o fd expected_name (call (printf "Received connection from %s\n" address) s))

  -- The loop, blocked in `accept`. The flag is looked at between two connections, so one connection more
  -- is served after a signal.
  unfoldable pub listen : List Arrival → Tls → Tls
  unfolding handle_signal serve
  listen [] s = s
  listen (signalled k ∷ rest) s = listen rest (handle_signal k s)
  listen (accepted fd address ∷ rest) s =
      let s' = serve fd address s in
      let more = listen rest s' in if s'.exit_flag then shut s' else more
