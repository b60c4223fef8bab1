-- ===== src/Tls/Tests.antt =====
-- Runs of the listener: a client without the right certificate, one with it, and a signal.
use cg2111a_b.Base.{ℕ, refl, arith, replicate, true, false, List, [], ◌∷◌, some, if◌then◌else◌, ◌≡◌}
use cg2111a_b.Base.Int.{pos, eqb_ℤ}
use cg2111a_b.Tls.{Openssl, Tls}
use cg2111a_b.Tls.Listener.{Arrival, signalled, accepted, interrupt, listen}
use cg2111a_b.Tls.Context.{Context, Loads, Progress}
use cg2111a_b.Tls.Startup.{Sockets, unset, create_server, start_listener}
use cg2111a_b.Tls.Secure.{IsName, Judged, create_server-Judged}
use cg2111a_b.Tls.Echo.{Exchange, read_bytes, closed, work}
use cg2111a_b.Tls.Stale.{Echoes, work-Echoes}
use cg2111a_b.Tls.Gate.{listen-spawned}

-- Descriptor 4 has a certificate that OpenSSL does not accept.
abbrev openssl : Openssl
openssl = record {
  accept = λ ssl. pos 1;
  has_certificate = λ ssl. true;
  verify_result = λ ssl. if eqb_ℤ ssl.fd (pos 4) then 62 else 0;
}

abbrev idle : Tls
idle = record { exit_flag = false; spawned = []; calls = [] }

abbrev arrivals : List Arrival
arrivals =
    accepted (pos 4) (b'x' ∷ [])
    ∷ accepted (pos 5) (b'y' ∷ [])
    ∷ signalled interrupt
    ∷ accepted (pos 6) (b'y' ∷ [])
    ∷ accepted (pos 7) (b'y' ∷ [])
    ∷ []

listen-spawned_example :
    (listen openssl true (b'n' ∷ []) arrivals idle).spawned
    ≡ record { fd = pos 6; host = some (b'n' ∷ []) }
      ∷ record { fd = pos 5; host = some (b'n' ∷ []) }
      ∷ []
listen-spawned_example = listen-spawned openssl true (b'n' ∷ []) arrivals idle

-- Everything goes through, but the file of the authority.
abbrev sockets : Sockets
sockets = record { listenfd = pos 3; bound = pos 0; listening = pos 0 }

abbrev loads : Loads
loads = record {
  context_new = true;
  verify_locations = λ name. pos 0;
  certificate_file = λ name. pos 1;
  private_key_file = λ name. pos 1;
}

abbrev name : List ℕ
name = b'a' ∷ b'l' ∷ b'e' ∷ b'x' ∷ []

name-IsName : IsName name
name-IsName = ((refl, (refl, (refl, (refl, tt)))), omega arith)

create_server-Judged_example :
    (r : Progress Context) × (start_listener sockets loads
        (create_server name name 5001 name name true unset idle).0
        (create_server name name 5001 name name true unset idle).1
      ≡ some r)
    × Judged sockets loads name name name true r
create_server-Judged_example =
    create_server-Judged sockets loads name name name name 5001 true unset idle name-IsName
      name-IsName name-IsName

-- A long message, and a short one in an array that still holds it.
abbrev exchanges : List Exchange
exchanges =
    read_bytes (replicate 128 0) (replicate 100 7) (pos 128)
    ∷ read_bytes (replicate 128 7) (1 ∷ 2 ∷ []) (pos 128)
    ∷ closed
    ∷ []

work-Echoes_example : Echoes exchanges [] (work exchanges [])
work-Echoes_example =
    work-Echoes exchanges [] ((refl, omega arith), ((refl, omega arith), (tt, tt)))
