-- ===== src/Channel/Defs.antt =====
-- The interface of a `tokio::sync::mpsc` channel, as an argument of the code that uses one.
use rust_job_runner.Common.{
  ℕ, ◌+◌, ◌-◌, ◌≡◌, ◌≢◌, Bool, true, false, Option, none, some, List, [], ◌∷◌, ◌++◌,
}

-- A poll of `rx.recv()`: nothing yet, `None`, or a value.
pub data Recv (C A : Type 0) : Type 0 where
  pending : Recv C A
  closed : Recv C A
  got : A → C → Recv C A

-- A poll of `tx.send(v)`: no room yet, `Err`, or `Ok`.
pub data Send (C : Type 0) : Type 0 where
  full : Send C
  refused : Send C
  sent : C → Send C

pub record Mpsc (A : Type 0) : Type 1 where
  pub Chan : Type 0
  -- what was sent and is not yet received, oldest first
  pub queue : Chan → List A
  -- the number of live `Sender` handles
  pub senders : Chan → ℕ
  -- `tx.is_closed()`: the `Receiver` is gone
  pub is_closed : Chan → Bool
  -- `mpsc::channel(n)`, `tx.clone()`, and the drop of a `Sender` and of the `Receiver`
  pub channel : ℕ → Chan
  pub clone_tx : Chan → Chan
  pub drop_tx : Chan → Chan
  pub drop_rx : Chan → Chan
  pub try_send : Chan → A → Option Chan
  pub send : Chan → A → Send Chan
  pub recv : Chan → Recv Chan A
  pub queue-channel : (n : ℕ) → queue (channel n) ≡ []
  pub queue-clone : (c : Chan) → queue (clone_tx c) ≡ queue c
  pub queue-drop_tx : (c : Chan) → queue (drop_tx c) ≡ queue c
  pub queue-try_send :
      (c : Chan) (a : A) {d : Chan} → try_send c a ≡ some d → queue d ≡ queue c ++ a ∷ []
  pub queue-send : (c : Chan) (a : A) {d : Chan} → send c a ≡ sent d → queue d ≡ queue c ++ a ∷ []
  pub queue-recv : (c : Chan) {a : A} {d : Chan} → recv c ≡ got a d → queue c ≡ a ∷ queue d
  pub senders-channel : (n : ℕ) → senders (channel n) ≡ 1
  pub senders-clone : (c : Chan) → senders (clone_tx c) ≡ senders c + 1
  pub senders-drop_tx : (c : Chan) → senders (drop_tx c) ≡ senders c - 1
  pub senders-try_send :
      (c : Chan) (a : A) {d : Chan} → try_send c a ≡ some d → senders d ≡ senders c
  pub senders-send : (c : Chan) (a : A) {d : Chan} → send c a ≡ sent d → senders d ≡ senders c
  pub senders-drop_rx : (c : Chan) → senders (drop_rx c) ≡ senders c
  pub senders-recv : (c : Chan) {a : A} {d : Chan} → recv c ≡ got a d → senders d ≡ senders c
  pub open-channel : (n : ℕ) → is_closed (channel n) ≡ false
  pub open-send : (c : Chan) (a : A) {d : Chan} → send c a ≡ sent d → is_closed d ≡ is_closed c
  pub open-recv : (c : Chan) {a : A} {d : Chan} → recv c ≡ got a d → is_closed d ≡ is_closed c
  pub open-drop_tx : (c : Chan) → is_closed (drop_tx c) ≡ is_closed c
  -- `recv` gives `None` only when every sender is gone and nothing is left.
  pub recv_closed : (c : Chan) → recv c ≡ closed → (queue c ≡ []) × (senders c ≡ 0)
  -- `recv` waits only for an empty queue, and `send` only for a queue with a value.
  pub recv_pending : (c : Chan) → recv c ≡ pending → queue c ≡ []
  pub send_full : (c : Chan) (a : A) → send c a ≡ full → queue c ≢ []
  -- `recv` waits only for a sender.
  pub recv_waits : (c : Chan) → recv c ≡ pending → senders c ≢ 0
  -- `send` gives `Err` only when the receiver is gone.
  pub send_refused : (c : Chan) (a : A) → send c a ≡ refused → is_closed c ≡ true
  pub try_send_closed : (c : Chan) (a : A) → is_closed c ≡ true → try_send c a ≡ none
  pub closed-drop_rx : (c : Chan) → is_closed (drop_rx c) ≡ true
