-- ===== src/Setup.antt =====
-- src/utils.rs and the set-up that the two binaries share: the files of keys and certificates, and
-- the crypto provider of src/grpc.rs. The file system and the libraries are arguments.
pub mod Server
pub mod Dial
pub mod Started
pub mod Connected
mod Tests
use Prim.Native.String.{◌++◌}
use rust_job_runner.Common.{String, Bool, Result, ok, err, ◌>>=◌, map_err, List, [], ◌∷◌}
use rust_job_runner.Frames.{Bytes}

-- An `anyhow::Error`: its contexts, the outermost first, and the error behind them.
abbrev pub Failure : Type 0
Failure = List String

-- `.context(…)`, on an error of a library and on one that has a context.
unfoldable pub context : {A : Type 0} → String → Result A String → Result A Failure
context c r = map_err (λ e. c ∷ e ∷ []) r

unfoldable pub add_context : {A : Type 0} → String → Result A Failure → Result A Failure
add_context c r = map_err (λ e. c ∷ e) r

-- `Identity::from_pem`, and `Certificate::from_pem`
pub record Identity : Type 0 where
  pub cert : Bytes
  pub key : Bytes

pub record Certificate : Type 0 where
  pub pem : Bytes

pub data CipherSuite : Type 0 where
  tls13_aes_256_gcm_sha384 : CipherSuite
  tls13_chacha20_poly1305_sha256 : CipherSuite
  tls13_aes_128_gcm_sha256 : CipherSuite

-- The provider of `init_crypto`, in order of preference.
abbrev pub cipher_suites : List CipherSuite
cipher_suites =
    tls13_aes_256_gcm_sha384 ∷ tls13_chacha20_poly1305_sha256 ∷ tls13_aes_128_gcm_sha256 ∷ []

-- `tokio::fs::read`, and the print of a path by `{:?}`.
module _ (read : String → Result Bytes String) (debug : String → String) where
  unfoldable pub read_path : String → Result Bytes Failure
  unfolding context
  read_path p = context ("failed to read " ++ debug p) (read p)

  unfoldable pub read_identity : String → String → Result Identity Failure
  unfolding read_path add_context
  read_identity cert key = do
    c ← add_context "could not read cert" (read_path cert)
    k ← add_context "could not read key" (read_path key)
    ok (record { cert = c; key = k })

  unfoldable pub read_ca_cert : String → Result Certificate Failure
  unfolding read_path add_context
  read_ca_cert cert = do
    c ← add_context "could not read ca cert" (read_path cert)
    ok (record { pem = c })
