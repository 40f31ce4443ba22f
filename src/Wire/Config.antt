-- ===== src/Wire/Config.antt =====
-- src/pb/jobs.rs: what is around the calls of `StoreClient` and `StoreServer`: how they are made,
-- configured and cloned. tonic's `Grpc` of the client is the interface `Inner`.
use rust_job_runner.Common.{ℕ, String, ◌≡◌, refl, Result, ok, ◌>>=◌}
use rust_job_runner.Wire.Server.{StoreServer}

-- `tonic::client::Grpc<T>`, as `G`.
pub record Inner (T Uri Encoding G : Type 0) : Type 0 where
  pub new : T → G
  pub with_origin : T → Uri → G
  pub send_compressed : G → Encoding → G
  pub accept_compressed : G → Encoding → G
  pub max_decoding_message_size : G → ℕ → G
  pub max_encoding_message_size : G → ℕ → G

pub record StoreClient (G : Type 0) : Type 0 where
  pub inner : G

module _ {T Uri Encoding G : Type 0} (I : Inner T Uri Encoding G) where
  unfoldable pub new_client : T → StoreClient G
  new_client t = record { inner = I.new t }

  unfoldable pub with_origin : T → Uri → StoreClient G
  with_origin t origin = record { inner = I.with_origin t origin }

  -- `connect`, with `Endpoint::new` and its `connect`
  unfoldable pub connect :
      {D Endpoint E : Type 0}
      → (D → Result Endpoint E)
      → (Endpoint → Result T E)
      → D
      → Result (StoreClient G) E
  unfolding new_client
  connect endpoint dial dst = do e ← endpoint dst; conn ← dial e; ok (new_client conn)

  -- `with_interceptor`, with `InterceptedService::new`
  unfoldable pub with_interceptor : {S F : Type 0} → (S → F → T) → S → F → StoreClient G
  unfolding new_client
  with_interceptor intercepted inner interceptor = new_client (intercepted inner interceptor)

  unfoldable pub send_client_compressed : StoreClient G → Encoding → StoreClient G
  send_client_compressed c e = record c { inner = I.send_compressed c.inner e }

  unfoldable pub accept_client_compressed : StoreClient G → Encoding → StoreClient G
  accept_client_compressed c e = record c { inner = I.accept_compressed c.inner e }

  unfoldable pub max_client_decoding : StoreClient G → ℕ → StoreClient G
  max_client_decoding c limit = record c { inner = I.max_decoding_message_size c.inner limit }

  unfoldable pub max_client_encoding : StoreClient G → ℕ → StoreClient G
  max_client_encoding c limit = record c { inner = I.max_encoding_message_size c.inner limit }

-- `Clone for StoreServer`, by a clone of what it serves (an `Arc`)
unfoldable pub clone_server :
    {Encodings T : Type 0} → (T → T) → StoreServer Encodings T → StoreServer Encodings T
clone_server clone s = record {
  inner = clone s.inner;
  accept_compression_encodings = s.accept_compression_encodings;
  send_compression_encodings = s.send_compression_encodings;
  max_decoding_message_size = s.max_decoding_message_size;
  max_encoding_message_size = s.max_encoding_message_size;
}

abbrev pub service_name : String
service_name = "jobs.Store"

-- A clone that is the same service is the same server.
clone_server-same :
    {Encodings T : Type 0} (clone : T → T) (s : StoreServer Encodings T)
    → clone s.inner ≡ s.inner
    → clone_server clone s ≡ s
unfolding clone_server
clone_server-same clone s e = rw e refl
