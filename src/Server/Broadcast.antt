-- ===== src/Server/Broadcast.antt =====
-- tokio's broadcast channel, which the server only calls. A sender is seen through the values sent
-- so far, a receiver through its position in them; the capacity bounds only how far a receiver may
-- fall behind before it is moved on.
use roder.Prelude.{ℕ, ◌≡◌, List, [], ◌∷◌, ◌++◌, length}

pub record Broadcast (E : Type 0) : Type 1 where
  pub Sender : Type 0
  pub Receiver : Type 0
  pub channel : ℕ → Sender
  pub send : E → Sender → Sender
  pub subscribe : Sender → Receiver
  pub sent : Sender → List E
  pub position : Receiver → ℕ
  pub sent-channel : (capacity : ℕ) → sent (channel capacity) ≡ []
  pub sent-send : (e : E) (s : Sender) → sent (send e s) ≡ sent s ++ e ∷ []
  pub position-subscribe : (s : Sender) → position (subscribe s) ≡ length (sent s)
