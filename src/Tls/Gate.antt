-- ===== src/Tls/Gate.antt =====
-- Which connections `_tls_listener` (server/make_tls_server.cpp) spawns a worker for.
use cg2111a_b.Base.{
  ℕ, Bool, true, false, not, ◌&&◌, ◌||◌, List, [], ◌∷◌, none, some, if◌then◌else◌, ◌==◌, ◌≡◌, refl,
  ap, ◌∙◌, Bool-cases, inl, inr, arith,
}
use cg2111a_b.Base.Int.{ℤ, pos, ltb_ℤ, leb_ℤ}
use cg2111a_b.Tls.{Ssl, Openssl, Tls}
use cg2111a_b.Tls.Session.{session, connect_ssl, print_certificate}
use cg2111a_b.Tls.Listener.{
  Signal, interrupt, terminate, Arrival, signalled, accepted, handle_signal, serve, admit, listen,
}

-- The connections that are served: after a signal, at most one more.
abbrev pub heard : List Arrival → Bool → List ℤ
heard [] leaving = []
heard (signalled k ∷ rest) leaving = heard rest true
heard (accepted fd address ∷ rest) leaving =
    let later = heard rest leaving in fd ∷ (if leaving then [] else later)

module _ (o : Openssl) (verify_peer : Bool) (client_name : List ℕ) where
  open o use {accept, has_certificate, verify_result}

  abbrev pub session_of : ℤ → Ssl
  session_of fd = session fd (if verify_peer then some client_name else none)

  -- The handshake went through, the client showed a certificate, and it is the expected one when clients
  -- are verified.
  abbrev pub is_vetted : ℤ → Bool
  is_vetted fd =
      ltb_ℤ (pos 0) (accept (session_of fd))
      && (has_certificate (session_of fd)
          && (not verify_peer || (verify_result (session_of fd) == 0)))

  abbrev pub grown : ℤ → List Ssl → List Ssl
  grown fd spawned = if is_vetted fd then session_of fd ∷ spawned else spawned

  abbrev pub spawned_for : List ℤ → List Ssl → List Ssl
  spawned_for [] spawned = spawned
  spawned_for (fd ∷ fds) spawned = spawned_for fds (grown fd spawned)

refused : (z : ℤ) → leb_ℤ z (pos 0) ≡ true → ltb_ℤ (pos 0) z ≡ false
refused z e = ground arith

let_in : (z : ℤ) → leb_ℤ z (pos 0) ≡ false → ltb_ℤ (pos 0) z ≡ true
let_in z e = ground arith

print_certificate_kept :
    (o : Openssl) (ssl : Ssl) (s : Tls)
    → ((print_certificate o ssl s).spawned ≡ s.spawned)
      × ((print_certificate o ssl s).exit_flag ≡ s.exit_flag)
unfolding print_certificate
print_certificate_kept o ssl s = elim (Bool-cases (o.has_certificate ssl)) [
  | inl c ↦ rw c (refl, refl)
  | inr c ↦ rw c (refl, refl)
]

-- The body of the loop spawns a worker for a vetted connection and for no other, and leaves the
-- exit flag.
serve-spawned :
    (o : Openssl) (verify_peer : Bool) (client_name : List ℕ) (fd : ℤ) (address : List ℕ) (s : Tls)
    → ((serve o verify_peer client_name fd address s).spawned
        ≡ grown o verify_peer client_name fd s.spawned)
      × ((serve o verify_peer client_name fd address s).exit_flag ≡ s.exit_flag)
unfolding serve connect_ssl admit
serve-spawned o true name fd address s =
    let ssl = session fd (some name) in
    elim (Bool-cases (leb_ℤ (o.accept ssl) (pos 0))) [
      | inl a ↦ rw (a, refused (o.accept ssl) a) (refl, refl)
      | inr a ↦ elim (Bool-cases (o.has_certificate ssl)) [
        | inr c ↦ rw (a, let_in (o.accept ssl) a, c) (refl, refl)
        | inl c ↦ elim (Bool-cases (o.verify_result ssl == 0)) [
          | inl v ↦
              rw (a, let_in (o.accept ssl) a, c, v)
                (
                  ap (λ q. ssl ∷ q) (print_certificate_kept o ssl _).0,
                  (print_certificate_kept o ssl _).1,
                )
          | inr v ↦ rw (a, let_in (o.accept ssl) a, c, v) (print_certificate_kept o ssl _)
        ]
      ]
    ]
serve-spawned o false name fd address s =
    let ssl = session fd none in
    elim (Bool-cases (leb_ℤ (o.accept ssl) (pos 0))) [
      | inl a ↦ rw (a, refused (o.accept ssl) a) (refl, refl)
      | inr a ↦ elim (Bool-cases (o.has_certificate ssl)) [
        | inl c ↦ rw (a, let_in (o.accept ssl) a, c) (refl, refl)
        | inr c ↦ rw (a, let_in (o.accept ssl) a, c) (refl, refl)
      ]
    ]

module _ (o : Openssl) (verify_peer : Bool) (client_name : List ℕ) where
  signal_kept :
      (k : Signal) (s : Tls)
      → ((handle_signal k s).spawned ≡ s.spawned) × ((handle_signal k s).exit_flag ≡ true)
  unfolding handle_signal
  signal_kept interrupt s = (refl, refl)
  signal_kept terminate s = (refl, refl)

  chosen :
      (b b' : Bool) (x y : Tls) (fd : ℤ) (later : List ℤ) (spawned : List Ssl)
      → b ≡ b'
      → x.spawned ≡ grown o verify_peer client_name fd spawned
      → y.spawned
        ≡ spawned_for o verify_peer client_name later (grown o verify_peer client_name fd spawned)
      → (if b then x else y).spawned
        ≡ spawned_for o verify_peer client_name (fd ∷ (if b' then [] else later)) spawned
  chosen b true x y fd later spawned e now more = rw e now
  chosen b false x y fd later spawned e now more = rw e more

  -- Whatever connections and signals arrive, workers are spawned for exactly the vetted ones of the
  -- connections that are served, in the order of their arrival: a connection is vetted when its
  -- handshake went through, it has a certificate and, when clients are verified, OpenSSL accepted
  -- the certificate for the client's name; after a signal at most one more is served.
  pub listen-spawned :
      (arrivals : List Arrival) (s : Tls)
      → (listen o verify_peer client_name arrivals s).spawned
        ≡ spawned_for o verify_peer client_name (heard arrivals s.exit_flag) s.spawned
  unfolding listen
  listen-spawned [] s = refl
  listen-spawned (signalled k ∷ rest) s =
      let (same, flag) = signal_kept k s in
      listen-spawned rest (handle_signal k s)
      ∙ ap (λ b. spawned_for o verify_peer client_name (heard rest b) (handle_signal k s).spawned)
          flag
      ∙ ap (λ q. spawned_for o verify_peer client_name (heard rest true) q) same
  listen-spawned (accepted fd address ∷ rest) s =
      let (grew, flag) = serve-spawned o verify_peer client_name fd address s in
      chosen (serve o verify_peer client_name fd address s).exit_flag s.exit_flag _ _ fd
        (heard rest s.exit_flag) s.spawned flag grew
        (listen-spawned rest (serve o verify_peer client_name fd address s)
          ∙ ap
              (λ b.
                spawned_for o verify_peer client_name (heard rest b)
                  (serve o verify_peer client_name fd address s).spawned)
              flag
          ∙ ap (λ q. spawned_for o verify_peer client_name (heard rest s.exit_flag) q) grew)
