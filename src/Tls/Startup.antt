-- ===== src/Tls/Startup.antt =====
-- `createServer` of server/make_tls_server.cpp, and `_tls_listener` before its loop.
use cg2111a_b.Base.{
  ℕ, Bool, true, false, not, List, [], Option, some, ◌>>=◌, if◌then◌else◌, replicate,
}
use cg2111a_b.Base.Int.{ℤ, pos, ltb_ℤ}
use cg2111a_b.Tls.{
  Tls, call, perror, printf, socket, set_reuse, bind, listen, thread_setup, install_interrupt,
  install_terminate, install_kill, spawn_listener,
}
use cg2111a_b.Tls.Context.{
  Context, Loads, Progress, went, follow, failed, strncpy, init_openssl, create_context,
  configure_context,
}

abbrev pub max_filename_len : ℕ
max_filename_len = 128

abbrev pub max_domain_name_len : ℕ
max_domain_name_len = 128

-- The static variables that `createServer` sets.
pub record Settings : Type 0 where
  pub port_num : ℕ
  pub key_filename : List ℕ
  pub cert_filename : List ℕ
  pub verify_peer : Bool
  pub ca_cert_filename : List ℕ
  pub client_name : List ℕ

-- Static storage starts as zeros.
abbrev pub unset : Settings
unset = record {
  port_num = 0;
  key_filename = replicate max_filename_len 0;
  cert_filename = replicate max_filename_len 0;
  verify_peer = false;
  ca_cert_filename = replicate max_filename_len 0;
  client_name = replicate max_domain_name_len 0;
}

-- The worker is the parameter of the listener's loop.
unfoldable pub create_server :
    List ℕ → List ℕ → ℕ → List ℕ → List ℕ → Bool → Settings → Tls → Settings × Tls
create_server key cert port ca client verify_peer settings s =
    let named = record settings {
      port_num = port;
      key_filename = strncpy key max_filename_len;
      cert_filename = strncpy cert max_filename_len;
      verify_peer = verify_peer;
    } in
    let verifying = record named {
      ca_cert_filename = strncpy ca max_filename_len;
      client_name = strncpy client max_domain_name_len;
    } in
    let handlers = call install_kill (call install_terminate (call install_interrupt s)) in
    (
      if verify_peer then verifying else named,
      call spawn_listener (call (printf "\n** Spawning TLS Server **\n\n" []) handlers),
    )

-- What the operating system answers.
pub record Sockets : Type 0 where
  pub listenfd : ℤ
  pub bound : ℤ
  pub listening : ℤ

-- The calls before the loop, up to the context that it uses.
unfoldable pub start_listener : Sockets → Loads → Settings → Tls → Option (Progress Context)
start_listener os o settings s =
    let opened = call socket s in
    let bound = call (bind settings.port_num) (call set_reuse opened) in
    let ready = call (listen 10) (call (printf "Now listening..\n" []) bound) in
    let secured = (do
      created ←
          create_context o settings.ca_cert_filename settings.verify_peer true (init_openssl ready)
      configured ←
          follow created
            (λ ctx t. configure_context o ctx settings.cert_filename settings.key_filename t)
      follow configured (λ ctx t. some (went ctx (call thread_setup t)))) in
    if ltb_ℤ os.listenfd (pos 0)
    then failed (call (perror "Unable to create socket: ") opened)
    else (if ltb_ℤ os.bound (pos 0)
        then failed (call (perror "Unable to bind: ") bound)
        else (if ltb_ℤ os.listening (pos 0)
            then failed (call (perror "Unable to listen to port: ") ready)
            else secured))

-- `server_is_running`.
abbrev pub server_is_running : Tls → Bool
server_is_running s = not s.exit_flag
