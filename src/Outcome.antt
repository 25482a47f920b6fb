-- ===== src/Outcome.antt =====
-- Calls that may raise, and the interface of a sink (core/dremio_sink.py, core/iceberg_sink.py).
use dremio_cdc.Prelude.{◌≡◌, List, Text}
use dremio_cdc.Event.{ChangeEvent}

-- A call returns, or it raises with a message.
pub data Outcome {ℓ} (A : Type ℓ) : Type ℓ where
  ok : A → Outcome A
  raised : Text → Outcome A

-- What follows a call is not run when the call raises.
infixl 5 ◌>>=◌
abbrev pub ◌>>=◌ {ℓ κ} : {A : Type ℓ} {B : Type κ} → Outcome A → (A → Outcome B) → Outcome B
ok a >>= f = f a
raised message >>= f = raised message

pub bind-ok {ℓ κ} :
    {A : Type ℓ} {B : Type κ} {m : Outcome A} {a : A} (f : A → Outcome B) {r : Outcome B}
    → m ≡ ok a
    → f a ≡ r
    → (m >>= f) ≡ r
bind-ok f e h = rw e h

-- `write_batch`, on a state of the sink's own: what it changed before a raise stays changed.
pub record SinkApi : Type 1 where
  pub Sink : Type 0
  pub write_batch : List ChangeEvent → Sink → Outcome (Unit {0}) × Sink
