-- ===== src/Tls/Session.antt =====
-- server/tls_server_lib.cpp, and what it uses of server/tls_common_lib.cpp.
use cg2111a_b.Base.{ℕ, Bool, List, [], Option, none, some, if◌then◌else◌, ◌==◌}
use cg2111a_b.Base.Int.{ℤ, pos, leb_ℤ}
use cg2111a_b.Tls.{Ssl, Openssl, Tls, printf, print_errors, print_name, ssl_new, ssl_free, call}

-- `setHostVerification`.
abbrev pub set_host_verification : Ssl → List ℕ → Ssl
set_host_verification ssl hostname = record ssl { host = some hostname }

-- The session before the handshake.
abbrev pub session : ℤ → Option (List ℕ) → Ssl
session fd none = record { fd = fd; host = none }
session fd (some name) = set_host_verification (record { fd = fd; host = none }) name

module _ (o : Openssl) where
  open o use {accept, has_certificate, verify_result}

  -- `connectSSL`.
  unfoldable pub connect_ssl : ℤ → Option (List ℕ) → Tls → Option Ssl × Tls
  connect_ssl fd common_name s =
      let ssl = session fd common_name in
      let s1 = call (ssl_new ssl) s in
      if leb_ℤ (accept ssl) (pos 0)
      then (none, call (ssl_free ssl) (call print_errors s1))
      else (if has_certificate ssl
          then (some ssl, s1)
          else (none, call (ssl_free ssl) (call (printf "Unable to get certificate\n" []) s1)))

  -- `printCertificate`.
  unfoldable pub print_certificate : Ssl → Tls → Tls
  print_certificate ssl s =
      if has_certificate ssl
      then call (printf "\n\n" []) (call (print_name ssl) s)
      else call (printf "Cannot get peer certificate\n" []) s

  -- `verifyCertificate`.
  abbrev pub verify_certificate : Ssl → Bool
  verify_certificate ssl = verify_result ssl == 0
