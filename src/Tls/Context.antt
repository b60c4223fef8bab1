-- ===== src/Tls/Context.antt =====
-- The OpenSSL contexts of server/tls_common_lib.cpp, and the character arrays that hold file names.
use cg2111a_b.Base.{
  ℕ, Bool, true, false, List, ◌++◌, Option, none, some, ◌>>=◌, take, replicate, if◌then◌else◌,
}
use cg2111a_b.Base.Int.{ℤ, pos, negsuc, leb_ℤ, ltb_ℤ}
use cg2111a_b.Memory.{c_string}
use cg2111a_b.Tls.{
  Tls, call, perror, exit, print_errors, library_init, load_error_strings, add_all_algorithms,
  evp_cleanup,
}

-- `strncpy(dest, name, n)` over an array of `n` characters.
abbrev pub strncpy : List ℕ → ℕ → List ℕ
strncpy name n = take n (name ++ replicate n 0)

-- What is set in an `SSL_CTX`; `none` where OpenSSL's default was left.
pub record Context : Type 0 where
  pub is_server : Bool
  pub no_sslv2 : Bool
  pub no_sslv3 : Bool
  pub ecdh_auto : Bool
  pub verify_peer : Bool
  pub verify_depth : Option ℕ
  pub ca_file : Option (List ℕ)
  pub certificate : Option (List ℕ)
  pub private_key : Option (List ℕ)

-- What OpenSSL answers: whether `SSL_CTX_new` gives a context, and the results of loading the
-- authorities, a certificate and a private key.
pub record Loads : Type 0 where
  pub context_new : Bool
  pub verify_locations : List ℕ → ℤ
  pub certificate_file : List ℕ → ℤ
  pub private_key_file : List ℕ → ℤ

-- The program ended by `exit`, or went on with a result.
pub data Progress (A : Type 0) : Type 0 where
  exited : Tls → Progress A
  went : A → Tls → Progress A

-- The next step, unless the program ended.
abbrev pub follow :
    {A B : Type 0} → Progress A → (A → Tls → Option (Progress B)) → Option (Progress B)
follow (exited s) f = some (exited s)
follow (went a s) f = f a s

abbrev pub failed : {A : Type 0} → Tls → Option (Progress A)
failed s = some (exited (call (exit (negsuc 0)) s))

abbrev pub init_openssl : Tls → Tls
init_openssl s = call add_all_algorithms (call load_error_strings (call library_init s))

abbrev pub cleanup_openssl : Tls → Tls
cleanup_openssl s = call evp_cleanup s

-- `SSL_CTX_new`, and the options that are always set.
abbrev pub restricted : Bool → Context
restricted is_server = record {
  is_server = is_server;
  no_sslv2 = true;
  no_sslv3 = true;
  ecdh_auto = false;
  verify_peer = false;
  verify_depth = none;
  ca_file = none;
  certificate = none;
  private_key = none;
}

module _ (o : Loads) where
  -- What `SSL_CTX_load_verify_locations` leaves: a positive result is success, and the code does
  -- not look at it.
  abbrev pub loaded_authority : List ℕ → Option (List ℕ)
  loaded_authority ca = if ltb_ℤ (pos 0) (o.verify_locations ca) then some ca else none

  unfoldable pub create_context : List ℕ → Bool → Bool → Tls → Option (Progress Context)
  create_context ca_cert_name verify_peer is_server s =
      let verifying = (do
        ca ← c_string ca_cert_name
        some (
            went
              (record (restricted is_server) {
                verify_peer = true;
                verify_depth = some 4;
                ca_file = loaded_authority ca;
              })
              s)) in
      let created = if verify_peer then verifying else some (went (restricted is_server) s) in
      if o.context_new
      then created
      else failed (call print_errors (call (perror "Unable to create SSL context: ") s))

  unfoldable pub configure_context : Context → List ℕ → List ℕ → Tls → Option (Progress Context)
  configure_context ctx cert_name pkey_name s = do
    cert ← c_string cert_name
    let loading = (do
      pkey ← c_string pkey_name
      if leb_ℤ (o.private_key_file pkey) (pos 0)
          then failed (call print_errors s)
          else some (
              went
                (record ctx { ecdh_auto = true; certificate = some cert; private_key = some pkey })
                s))
    if leb_ℤ (o.certificate_file cert) (pos 0) then failed (call print_errors s) else loading
