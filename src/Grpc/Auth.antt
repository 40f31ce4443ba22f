-- ===== src/Grpc/Auth.antt =====
-- Who gets through to the coordinator.
use Prim.Native.String.{◌++◌}
use rust_job_runner.Common.{
  String, ◌≡◌, ◌≢◌, refl, subst, Option, some, Result, ok, err, List, [], ◌∷◌, length, arith, inl,
  inr, Option-cases, Result-cases,
}
use rust_job_runner.Frames.{Bytes}
use rust_job_runner.Grpc.Status.{Status, status, unauthenticated}
use rust_job_runner.Grpc.Requests.{Request, get_ctx, set_ctx, server_interceptor, show_usize}

-- The peer has shown exactly one certificate, and it can be read.
abbrev pub Shows : {A : Type 0} → (Bytes → Result String String) → Request A → String → Type 0
Shows parse req subject =
    (cert : Bytes) × (req.peer_certs ≡ some (cert ∷ [])) × (parse cert ≡ ok subject)

abbrev pub Passes : {A : Type 0} → (Bytes → Result String String) → Request A → Request A → Type 0
Passes parse req passed =
    (subject : String) × Shows parse req subject
    × (get_ctx passed ≡ ok (record { user = record { id = subject } }))
    × (passed.message ≡ req.message)

Passes-certs :
    {A : Type 0} (parse : Bytes → Result String String) (req passed : Request A)
    (certs : List Bytes)
    → req.peer_certs ≡ some certs
    → server_interceptor parse req ≡ ok passed
    → Passes parse req passed
unfolding server_interceptor get_ctx
Passes-certs parse req passed [] e h = absurd (ground arith)
Passes-certs parse req passed (cert ∷ []) e h = elim (Result-cases (parse cert)) [
  | inl (subject, read) ↦ (subject, (cert, e, read), ground arith, ground arith)
  | inr (text, unread) ↦ absurd (ground arith)
]
Passes-certs parse req passed (cert ∷ other ∷ rest) e h = absurd (ground arith)

-- A request gets past the interceptor only with exactly one certificate that can be read; then its
-- context is the subject of that certificate, whatever context it claimed, and its message is kept.
pub server_interceptor-ok :
    {A : Type 0} (parse : Bytes → Result String String) (req passed : Request A)
    → server_interceptor parse req ≡ ok passed
    → (subject : String) × Shows parse req subject
      × (get_ctx passed ≡ ok (record { user = record { id = subject } }))
      × (passed.message ≡ req.message)
server_interceptor-ok parse req passed h = elim (Option-cases req.peer_certs) [
  | inl unshown ↦ absurd (unfold server_interceptor in ground arith)
  | inr (certs, shown) ↦ Passes-certs parse req passed certs shown h
]

-- A peer without exactly one certificate that can be read.
abbrev pub IsUnknown : (Bytes → Result String String) → Option (List Bytes) → Type 0
IsUnknown parse certs =
    (cert : Bytes) (subject : String) → certs ≡ some (cert ∷ []) → parse cert ≢ ok subject

-- The interceptor turns a request away as unauthenticated.
abbrev pub TurnsAway : {A : Type 0} → (Bytes → Result String String) → Request A → Type 0
TurnsAway parse req =
    (e : Status) × (server_interceptor parse req ≡ err e) × (e.code ≡ unauthenticated)

TurnsAway-certs :
    {A : Type 0} (parse : Bytes → Result String String) (req : Request A) (certs : List Bytes)
    → req.peer_certs ≡ some certs
    → IsUnknown parse (some certs)
    → TurnsAway parse req
unfolding server_interceptor
TurnsAway-certs parse req [] e h = (
  status unauthenticated ("expected exactly one peer cert but got " ++ show_usize 0),
  rw e refl,
  refl,
)
TurnsAway-certs parse req (cert ∷ []) e h = elim (Result-cases (parse cert)) [
  | inl (subject, read) ↦ absurd (h cert subject refl read)
  | inr (text, unread) ↦ (status unauthenticated ("bad cert: " ++ text), rw (e, unread) refl, refl)
]
TurnsAway-certs parse req (cert ∷ other ∷ rest) e h = (
  status unauthenticated
      ("expected exactly one peer cert but got " ++ show_usize (length (cert ∷ other ∷ rest))),
  rw e refl,
  refl,
)

-- Every request of such a peer is turned away as unauthenticated.
pub server_interceptor-TurnsAway :
    {A : Type 0} (parse : Bytes → Result String String) (req : Request A)
    → IsUnknown parse req.peer_certs
    → TurnsAway parse req
server_interceptor-TurnsAway parse req h = elim (Option-cases req.peer_certs) [
  | inl unshown ↦
      (status unauthenticated "mtls required", unfold server_interceptor in rw unshown refl, refl)
  | inr (certs, shown) ↦ TurnsAway-certs parse req certs shown (subst (IsUnknown parse) shown h)
]

-- With one certificate that can be read, a request does get past it.
pub server_interceptor-passes :
    {A : Type 0} (parse : Bytes → Result String String) (req : Request A) (subject : String)
    → Shows parse req subject
    → server_interceptor parse req ≡ ok (set_ctx req (record { user = record { id = subject } }))
unfolding server_interceptor
server_interceptor-passes parse req subject (cert, shown, read) = ground arith
