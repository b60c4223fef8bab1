-- ===== src/Tls.antt =====
-- The TLS server that serves the rover's clients (server/make_tls_server.cpp, server/tls_common_lib.cpp,
-- server/tls_server_lib.cpp): its state and what it does to the outside.
pub mod Session
pub mod Listener
pub mod Gate
pub mod Context
pub mod Startup
pub mod Secure
pub mod Echo
pub mod Stale
mod Tests
use cg2111a_b.Base.{ℕ, Bool, List, ◌∷◌, Option, String}
use cg2111a_b.Base.Int.{ℤ}

-- An `SSL` object: the descriptor it was given, and the name that `setHostVerification` set.
pub record Ssl : Type 0 where
  pub fd : ℤ
  pub host : Option (List ℕ)

-- OpenSSL: what `SSL_accept` returns, whether `SSL_get_peer_certificate` gives a certificate, and
-- the result of `SSL_get_verify_result`, 0 for `X509_V_OK`.
pub record Openssl : Type 0 where
  pub accept : Ssl → ℤ
  pub has_certificate : Ssl → Bool
  pub verify_result : Ssl → ℕ

-- The calls that reach the outside.
pub data Call : Type 0 where
  printf : String → List ℕ → Call
  print_errors : Call
  print_name : Ssl → Call
  ssl_new ssl_free : Ssl → Call
  close_listener context_free thread_setup thread_cleanup evp_cleanup : Call
  perror : String → Call
  exit : ℤ → Call
  socket set_reuse : Call
  bind : ℕ → Call
  listen : ℕ → Call
  library_init load_error_strings add_all_algorithms : Call
  install_interrupt install_terminate install_kill spawn_listener : Call

-- The exit flag, the connections that a worker was spawned for, and the calls, the last ones first.
pub record Tls : Type 0 where
  pub exit_flag : Bool
  pub spawned : List Ssl
  pub calls : List Call

abbrev pub call : Call → Tls → Tls
call c s = record s { calls = c ∷ s.calls }
