-- ===== src/Grpc/Requests.antt =====
-- src/grpc.rs: the identity of a caller, and the validation of what it sends.
use Prim.Native.String.{◌++◌}
use rust_job_runner.Common.{
  ℕ, zero, suc, ◌/◌, ◌%◌, String, Option, some, Result, ok, err, ◌>>=◌, ok_or, map_err, List, [],
  ◌∷◌, length, ltb, ◌==◌, str_eq, if◌then◌else◌,
}
use rust_job_runner.Types.{Ctx}
use rust_job_runner.Frames.{Bytes}
use rust_job_runner.Grpc.Status.{invalid_argument, unauthenticated, Status, status}
use rust_job_runner.Pb.{SpawnRequest, LogsRequest, PsRequest, KillRequest}

-- `Display for usize`: a `usize` has at most twenty digits.
show_digit : ℕ → String
show_digit d =
    if d == 0
    then "0"
    else if d == 1
    then "1"
    else if d == 2
    then "2"
    else if d == 3
    then "3"
    else if d == 4
    then "4"
    else if d == 5
    then "5"
    else if d == 6
    then "6"
    else if d == 7
    then "7"
    else if d == 8
    then "8"
    else "9"

unfoldable show_digits : ℕ → ℕ → String
unfolding show_digit
show_digits zero n = ""
show_digits (suc fuel) n =
    let more = show_digits fuel (n / 10) ++ show_digit (n % 10) in
    if ltb n 10 then show_digit n else more

unfoldable pub show_usize : ℕ → String
unfolding show_digits
show_usize n = show_digits 20 n

-- A `tonic::Request`: the certificates of the peer, the `Ctx` among its extensions, and its message.
pub record Request (A : Type 0) : Type 0 where
  pub peer_certs : Option (List Bytes)
  pub ctx : Option Ctx
  pub message : A

module _ {A : Type 0} where
  -- `RequestExt`
  unfoldable pub set_ctx : Request A → Ctx → Request A
  set_ctx req ctx = record req { ctx = some ctx }

  unfoldable pub get_ctx : Request A → Result Ctx Status
  get_ctx req = ok_or req.ctx (status unauthenticated "no ctx found")

-- `x509_parser::parse_x509_certificate`, and the print of the subject, are the argument `parse`: an
-- error's text or the subject.
module _ (parse : Bytes → Result String String) where
  -- `TryFrom<CertificateDer> for Ctx`
  unfoldable pub ctx_of_cert : Bytes → Result Ctx Status
  ctx_of_cert cert = do
    subject ← map_err (λ e. status unauthenticated ("bad cert: " ++ e)) (parse cert)
    ok (record { user = record { id = subject } })

  -- The `match` on the certificates.
  unfoldable pub one_cert : List Bytes → Result Bytes Status
  one_cert (cert ∷ []) = ok cert
  one_cert certs = err (
      status unauthenticated
        ("expected exactly one peer cert but got " ++ show_usize (length certs)))

  unfoldable pub extract_client_cert : {A : Type 0} → Request A → Result (Request A) Status
  unfolding ctx_of_cert one_cert set_ctx
  extract_client_cert req = do
    certs ← ok_or req.peer_certs (status unauthenticated "mtls required")
    cert ← one_cert certs
    ident ← ctx_of_cert cert
    ok (set_ctx req ident)

  -- The loop over the chain of interceptors.
  unfoldable pub chain :
      {A : Type 0}
      → List (Request A → Result (Request A) Status)
      → Request A
      → Result (Request A) Status
  chain [] req = ok req
  chain (i ∷ is) req = i req >>= chain is

  unfoldable pub server_interceptor : {A : Type 0} → Request A → Result (Request A) Status
  unfolding chain extract_client_cert
  server_interceptor req = chain (extract_client_cert ∷ []) req

unfoldable pub validate_job_id : String → Result (Unit {0}) Status
validate_job_id id = if str_eq id "" then err (status invalid_argument "job id required") else ok tt

-- `Validate` for the four requests
unfoldable pub validate_spawn : SpawnRequest → Result (Unit {0}) Status
validate_spawn r = if str_eq r.name "" then err (status invalid_argument "name required") else ok tt

unfoldable pub validate_logs : LogsRequest → Result (Unit {0}) Status
unfolding validate_job_id
validate_logs r = validate_job_id r.job_id

unfoldable pub validate_ps : PsRequest → Result (Unit {0}) Status
unfolding validate_job_id
validate_ps r = validate_job_id r.job_id

unfoldable pub validate_kill : KillRequest → Result (Unit {0}) Status
unfolding validate_job_id
validate_kill r = validate_job_id r.job_id
