-- ===== src/Tls/Secure.antt =====
-- The context that the listener of server/make_tls_server.cpp accepts its clients with.
use cg2111a_b.Base.{
  ℕ, zero, suc, ◌≤◌, ◌<◌, ◌≡◌, refl, arith, Bool, true, false, not, ◌||◌, List, [], ◌∷◌, ◌++◌,
  Option, none, some, ◌>>=◌, All, length, take, replicate, ◌==◌, if-takes, if-skips, false≢true,
  Bool-cases, inl, inr,
}
use cg2111a_b.Base.Int.{pos, negsuc, ltb_ℤ, leb_ℤ}
use cg2111a_b.Memory.{c_string}
use cg2111a_b.Tls.{
  Tls, call, exit, thread_setup, print_errors, perror, printf, install_kill, install_terminate,
  install_interrupt, spawn_listener, bind, set_reuse, socket, listen,
}
use cg2111a_b.Tls.Context.{
  Context, Loads, Progress, exited, went, follow, failed, restricted, loaded_authority,
  init_openssl, strncpy, create_context, configure_context,
}
use cg2111a_b.Tls.Startup.{Settings, Sockets, create_server, start_listener, max_filename_len}

-- A string without its end, and one that fits an array of `n` characters with it.
abbrev pub IsText : List ℕ → Type 0
IsText name = All (λ c. (c == 0) ≡ false) name

abbrev pub IsName : List ℕ → Type 0
IsName name = IsText name × (length name < max_filename_len)

copied :
    (name : List ℕ) (n m : ℕ)
    → IsText name
    → length name < n
    → c_string (take n (name ++ replicate (suc m) 0)) ≡ some name
copied [] zero m text short = absurd (omega arith)
copied [] (suc n) m text short = refl
copied (c ∷ cs) zero m text short = absurd (omega arith)
copied (c ∷ cs) (suc n) m text short = rw (text.0, copied cs n m text.1 (omega arith)) refl

-- What `strncpy` makes of a name: the name, or an array without an end when it is too long.
pub c_string-strncpy :
    (name : List ℕ) → IsName name → c_string (strncpy name max_filename_len) ≡ some name
c_string-strncpy name (text, short) = copied name 128 127 text short

cut :
    (name rest : List ℕ) (n : ℕ)
    → IsText name
    → n ≤ length name
    → c_string (take n (name ++ rest)) ≡ none
cut name rest zero text long = refl
cut [] rest (suc n) text long = absurd (omega arith)
cut (c ∷ cs) rest (suc n) text long = rw (text.0, cut cs rest n text.1 (omega arith)) refl

pub c_string-cut :
    (name : List ℕ)
    → IsText name
    → max_filename_len ≤ length name
    → c_string (strncpy name max_filename_len) ≡ none
c_string-cut name text long = cut name (replicate 128 0) 128 text long

-- SSLv2 and SSLv3 are off, the server's own files are loaded, and clients are verified exactly when
-- that was asked for: against the authority's file when OpenSSL loaded it, and against none when it
-- did not.
pub record IsSecure (o : Loads) (key cert ca : List ℕ) (verify : Bool) (ctx : Context)
    : Type 0 where
  pub server : ctx.is_server ≡ true
  pub no_sslv2 : ctx.no_sslv2 ≡ true
  pub no_sslv3 : ctx.no_sslv3 ≡ true
  pub certificate : ctx.certificate ≡ some cert
  pub private_key : ctx.private_key ≡ some key
  pub verifies : ctx.verify_peer ≡ verify
  pub authority : verify ≡ true → ctx.ca_file ≡ loaded_authority o ca
  pub depth : verify ≡ true → ctx.verify_depth ≡ some 4

module _ (os : Sockets) (o : Loads) (key cert ca : List ℕ) (verify : Bool) where
  -- One of the steps fails.
  abbrev pub fails : Bool
  fails =
      ltb_ℤ os.listenfd (pos 0)
      || (ltb_ℤ os.bound (pos 0)
          || (ltb_ℤ os.listening (pos 0)
              || (not o.context_new
                  || (leb_ℤ (o.certificate_file cert) (pos 0)
                      || leb_ℤ (o.private_key_file key) (pos 0)))))

  -- The program has ended with status -1, or the listener has a secure context.
  abbrev pub Judged : Progress Context → Type 0
  Judged (exited s) = (fails ≡ true) × ((t : Tls) × (s ≡ call (exit (negsuc 0)) t))
  Judged (went ctx s) = (fails ≡ false) × IsSecure o key cert ca verify ctx

  abbrev pub Judges : Option (Progress Context) → Type 0
  Judges m = (r : Progress Context) × (m ≡ some r) × Judged r

-- The first step, by its answer and by whether clients are to be verified.
refused_context :
    (o : Loads) (array : List ℕ) (verify : Bool) (s : Tls)
    → o.context_new ≡ false
    → create_context o array verify true s
      ≡ failed (call print_errors (call (perror "Unable to create SSL context: ") s))
unfolding create_context
refused_context o array verify s e =
    let refusal = failed (call print_errors (call (perror "Unable to create SSL context: ") s)) in
    if-skips (λ m. m ≡ refusal) o.context_new _ refusal e refl

plain_context :
    (o : Loads) (array : List ℕ) (s : Tls)
    → o.context_new ≡ true
    → create_context o array false true s ≡ some (went (restricted true) s)
unfolding create_context
plain_context o array s e =
    let made = some (went (restricted true) s) in
    if-takes (λ m. m ≡ made) o.context_new made _ e refl

verifying : Loads → List ℕ → Context
verifying o ca = record (restricted true) {
  verify_peer = true;
  verify_depth = some 4;
  ca_file = loaded_authority o ca;
}

verifying_context :
    (o : Loads) (array ca : List ℕ) (s : Tls)
    → c_string array ≡ some ca
    → o.context_new ≡ true
    → create_context o array true true s ≡ some (went (verifying o ca) s)
unfolding create_context verifying
verifying_context o array ca s text e =
    let loading = (do name ← c_string array; some (went (verifying o name) s)) in
    if-takes (λ m. m ≡ some (went (verifying o ca) s)) o.context_new loading _ e (rw text refl)

-- The last two steps, on a context that `create_context` gave.
configured :
    (os : Sockets) (o : Loads) (key cert ca : List ℕ) (verify : Bool) (ctx : Context) (s : Tls)
    → IsName key
    → IsName cert
    → ltb_ℤ os.listenfd (pos 0) ≡ false
    → ltb_ℤ os.bound (pos 0) ≡ false
    → ltb_ℤ os.listening (pos 0) ≡ false
    → o.context_new ≡ true
    → ctx.is_server ≡ true
    → ctx.no_sslv2 ≡ true
    → ctx.no_sslv3 ≡ true
    → ctx.verify_peer ≡ verify
    → (verify ≡ true → ctx.ca_file ≡ loaded_authority o ca)
    → (verify ≡ true → ctx.verify_depth ≡ some 4)
    → Judges os o key cert ca verify (do
      configured ←
          configure_context o ctx (strncpy cert max_filename_len) (strncpy key max_filename_len) s
      follow configured (λ ctx' t. some (went ctx' (call thread_setup t))))
unfolding configure_context
configured os o key cert ca verify ctx s key_ok cert_ok n0 n1 n2 new server v2 v3 verifies authority
      depth =
    rw (c_string-strncpy cert cert_ok, c_string-strncpy key key_ok)
      (elim (Bool-cases (leb_ℤ (o.certificate_file cert) (pos 0))) [
        | inl e ↦ rw e (_, refl, (rw (n0, n1, n2, new, e) refl, (_, refl)))
        | inr e ↦ rw e (elim (Bool-cases (leb_ℤ (o.private_key_file key) (pos 0))) [
          | inl k ↦ rw k (_, refl, (rw (n0, n1, n2, new, e, k) refl, (_, refl)))
          | inr k ↦ rw k (
            _,
            refl,
            (
              rw (n0, n1, n2, new, e, k) refl,
              record {
                server = server;
                no_sslv2 = v2;
                no_sslv3 = v3;
                certificate = refl;
                private_key = refl;
                verifies = verifies;
                authority = authority;
                depth = depth;
              },
            ),
          )
        ])
      ])

-- The state that `createServer` leaves, and that of the first call of OpenSSL.
abbrev created : Tls → Tls
created s =
    let handlers = call install_kill (call install_terminate (call install_interrupt s)) in
    call spawn_listener (call (printf "\n** Spawning TLS Server **\n\n" []) handlers)

abbrev ready : ℕ → Tls → Tls
ready port s =
    let bound = call (bind port) (call set_reuse (call socket s)) in
    call (listen 10) (call (printf "Now listening..\n" []) bound)

-- With names that fit their arrays, the start of the listener faults nowhere: it ends the program
-- with status -1 exactly when one of its steps fails, and else the listener has a secure context.
-- That the authority's file cannot be loaded is not among the failures: the listener goes on.
pub create_server-Judged :
    (os : Sockets) (o : Loads) (key cert ca client : List ℕ) (port : ℕ) (verify : Bool)
    (settings : Settings) (s : Tls)
    → IsName key
    → IsName cert
    → IsName ca
    → (r : Progress Context) × (start_listener os o
          (create_server key cert port ca client verify settings s).0
          (create_server key cert port ca client verify settings s).1
        ≡ some r)
      × Judged os o key cert ca verify r
unfolding start_listener create_server verifying
create_server-Judged os o key cert ca client port true settings s key_ok cert_ok ca_ok =
    elim (Bool-cases (ltb_ℤ os.listenfd (pos 0))) [
      | inl e ↦ rw e (_, refl, (rw e refl, (_, refl)))
      | inr n0 ↦ rw n0 (elim (Bool-cases (ltb_ℤ os.bound (pos 0))) [
        | inl e ↦ rw e (_, refl, (rw (n0, e) refl, (_, refl)))
        | inr n1 ↦ rw n1 (elim (Bool-cases (ltb_ℤ os.listening (pos 0))) [
          | inl e ↦ rw e (_, refl, (rw (n0, n1, e) refl, (_, refl)))
          | inr n2 ↦ rw n2 (elim (Bool-cases o.context_new) [
            | inl new ↦
                rw
                  (verifying_context o (strncpy ca max_filename_len) ca
                    (init_openssl (ready port (created s))) (c_string-strncpy ca ca_ok) new)
                  (configured os o key cert ca true _ _ key_ok cert_ok n0 n1 n2 new refl refl refl
                    refl (λ v. refl) (λ v. refl))
            | inr e ↦
                rw
                  (refused_context o (strncpy ca max_filename_len) true
                    (init_openssl (ready port (created s))) e)
                  (_, refl, (rw (n0, n1, n2, e) refl, (_, refl)))
          ])
        ])
      ])
    ]
create_server-Judged os o key cert ca client port false settings s key_ok cert_ok ca_ok =
    elim (Bool-cases (ltb_ℤ os.listenfd (pos 0))) [
      | inl e ↦ rw e (_, refl, (rw e refl, (_, refl)))
      | inr n0 ↦ rw n0 (elim (Bool-cases (ltb_ℤ os.bound (pos 0))) [
        | inl e ↦ rw e (_, refl, (rw (n0, e) refl, (_, refl)))
        | inr n1 ↦ rw n1 (elim (Bool-cases (ltb_ℤ os.listening (pos 0))) [
          | inl e ↦ rw e (_, refl, (rw (n0, n1, e) refl, (_, refl)))
          | inr n2 ↦ rw n2 (elim (Bool-cases o.context_new) [
            | inl new ↦
                rw
                  (plain_context o settings.ca_cert_filename (init_openssl (ready port (created s)))
                    new)
                  (configured os o key cert ca false _ _ key_ok cert_ok n0 n1 n2 new refl refl refl
                    refl (λ v. absurd (false≢true v)) (λ v. absurd (false≢true v)))
            | inr e ↦
                rw
                  (refused_context o settings.ca_cert_filename false
                    (init_openssl (ready port (created s))) e)
                  (_, refl, (rw (n0, n1, n2, e) refl, (_, refl)))
          ])
        ])
      ])
    ]
