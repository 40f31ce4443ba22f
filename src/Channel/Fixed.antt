-- ===== src/Channel/Fixed.antt =====
-- A bounded queue: a concrete channel with the behaviour that `Mpsc` states.
use rust_job_runner.Common.{
  ℕ, ◌+◌, ◌-◌, ◌≡◌, ◌≢◌, refl, Bool, true, false, Option, none, some, List, [], ◌∷◌, ◌++◌, arith,
  leb, ◌==◌, length, if◌then◌else◌,
}
use rust_job_runner.Channel.Defs.{Recv, pending, closed, got, Send, full, refused, sent, Mpsc}

pub record Bounded (A : Type 0) : Type 0 where
  pub room : ℕ  -- one less than the capacity, which is positive
  pub items : List A
  pub handles : ℕ
  pub hung_up : Bool

module _ {A : Type 0} where
  abbrev put : Bounded A → A → Bounded A
  put c a = record c { items = c.items ++ a ∷ [] }

  abbrev bounded_channel : ℕ → Bounded A
  bounded_channel n = record { room = n - 1; items = []; handles = 1; hung_up = false }

  abbrev bounded_try_send : Bounded A → A → Option (Bounded A)
  bounded_try_send c a =
      if c.hung_up then none else if leb (length c.items) c.room then some (put c a) else none

  abbrev bounded_send : Bounded A → A → Send (Bounded A)
  bounded_send c a =
      if c.hung_up then refused else if leb (length c.items) c.room then sent (put c a) else full

  abbrev recv_from : List A → Bounded A → Recv (Bounded A) A
  recv_from [] c = if c.handles == 0 then closed else pending
  recv_from (a ∷ rest) c = got a (record c { items = rest })

  abbrev bounded_recv : Bounded A → Recv (Bounded A) A
  bounded_recv c = recv_from c.items c

  pub bounded_queue-recv :
      (xs : List A) (c : Bounded A) {a : A} {d : Bounded A}
      → recv_from xs c ≡ got a d
      → (xs ≡ a ∷ d.items) × (d.handles ≡ c.handles) × (d.hung_up ≡ c.hung_up)
  bounded_queue-recv [] c h = ground arith
  bounded_queue-recv (x ∷ xs) c h = ground arith

  pub bounded_closed :
      (xs : List A) (c : Bounded A) → recv_from xs c ≡ closed → (xs ≡ []) × (c.handles ≡ 0)
  bounded_closed [] c h = ground arith
  bounded_closed (x ∷ xs) c h = absurd (ground arith)

  pub bounded_try_send-some :
      (c : Bounded A) (a : A) {d : Bounded A}
      → bounded_try_send c a ≡ some d
      → (d.items ≡ c.items ++ a ∷ []) × (d.handles ≡ c.handles)
  bounded_try_send-some c a h = ground arith

  pub bounded_send_sent :
      (c : Bounded A) (a : A) {d : Bounded A}
      → bounded_send c a ≡ sent d
      → (d.items ≡ c.items ++ a ∷ []) × (d.hung_up ≡ c.hung_up) × (d.handles ≡ c.handles)
  bounded_send_sent c a h = ground arith

  pub bounded_refused : (c : Bounded A) (a : A) → bounded_send c a ≡ refused → c.hung_up ≡ true
  bounded_refused c a h = ground arith

  pub bounded_pending : (xs : List A) (c : Bounded A) → recv_from xs c ≡ pending → xs ≡ []
  bounded_pending [] c h = refl
  bounded_pending (x ∷ xs) c h = absurd (ground arith)

  pub bounded_waits : (xs : List A) (c : Bounded A) → recv_from xs c ≡ pending → c.handles ≢ 0
  bounded_waits [] c h = ground arith
  bounded_waits (x ∷ xs) c h = absurd (ground arith)

  pub bounded_full : (c : Bounded A) (a : A) → bounded_send c a ≡ full → c.items ≢ []
  bounded_full c a h = ground arith

  pub bounded_try_send_closed :
      (c : Bounded A) (a : A) → c.hung_up ≡ true → bounded_try_send c a ≡ none
  bounded_try_send_closed c a h = ground arith

abbrev pub bounded : (A : Type 0) → Mpsc A
bounded A = record {
  Chan = Bounded A;
  queue = λ c. c.items;
  senders = λ c. c.handles;
  is_closed = λ c. c.hung_up;
  channel = bounded_channel;
  clone_tx = λ c. record c { handles = c.handles + 1 };
  drop_tx = λ c. record c { handles = c.handles - 1 };
  drop_rx = λ c. record c { hung_up = true };
  try_send = bounded_try_send;
  send = bounded_send;
  recv = bounded_recv;
  queue-channel = λ n. refl;
  queue-clone = λ c. refl;
  queue-drop_tx = λ c. refl;
  queue-try_send = λ c a h. (bounded_try_send-some c a h).0;
  queue-send = λ c a h. (bounded_send_sent c a h).0;
  queue-recv = λ c h. (bounded_queue-recv c.items c h).0;
  senders-channel = λ n. refl;
  senders-clone = λ c. refl;
  senders-drop_tx = λ c. refl;
  senders-try_send = λ c a h. (bounded_try_send-some c a h).1;
  senders-send = λ c a h. (bounded_send_sent c a h).2;
  senders-drop_rx = λ c. refl;
  senders-recv = λ c h. (bounded_queue-recv c.items c h).1;
  open-channel = λ n. refl;
  open-send = λ c a h. (bounded_send_sent c a h).1;
  open-recv = λ c h. (bounded_queue-recv c.items c h).2;
  open-drop_tx = λ c. refl;
  recv_closed = λ c h. bounded_closed c.items c h;
  recv_pending = λ c h. bounded_pending c.items c h;
  recv_waits = λ c h. bounded_waits c.items c h;
  send_full = bounded_full;
  send_refused = bounded_refused;
  try_send_closed = bounded_try_send_closed;
  closed-drop_rx = λ c. refl;
}
