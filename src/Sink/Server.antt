-- ===== src/Sink/Server.antt =====
-- `_sql` of core/dremio_sink.py: a statement is submitted, with three attempts.
use dremio_cdc.Prelude.{ℕ, zero, suc, ◌≡◌, refl, Bool, Text, if◌then◌else◌}
use dremio_cdc.Prelude.Chars.{codes}
use dremio_cdc.Outcome.{Outcome, ok, raised}

-- What a submission gets: status 401, the id of a job, or an exception.
pub data Reply : Type 0 where
  unauthorized : Reply
  accepted : Text → Reply
  failed : Text → Reply

-- The state of a job, or the exception that asking for it raises.
pub data Job : Type 0 where
  completed : Job
  ended : Text → Job
  running : Job
  unreachable : Text → Job

-- Dremio, and the token that the sink holds. `connect` does not raise.
pub record Server : Type 1 where
  pub State : Type 0
  pub has_token : State → Bool
  pub connect : State → State
  pub post : Text → State → Reply × State
  pub status : Text → State → Job × State

-- `rounds` is how many rounds of `_poll` start before its deadline.
module _ (server : Server) (rounds : ℕ) where
  open server use {State, has_token, connect, post, status}

  unfoldable pub poll_for : ℕ → Text → State → Outcome (Unit {0}) × State
  poll_for zero job s = (raised (codes "timed out"), s)
  poll_for (suc n) job s =
      let (state, s') = status job s in
      elim state [
        | completed ↦ (ok tt, s')
        | ended message ↦ (raised message, s')
        | running ↦ poll_for n job s'
        | unreachable message ↦ (raised message, s')
      ]

  unfoldable pub poll : Text → State → Outcome (Unit {0}) × State
  unfolding poll_for
  poll job s = poll_for rounds job s

  -- `if attempt == retries - 1: raise`; `again` is the next attempt.
  abbrev pub caught : ℕ → Text → Outcome (Unit {0}) × State → State → Outcome (Unit {0}) × State
  caught zero message again s = (raised message, s)
  caught (suc n) message again s = again

  -- The attempts that are left. Without one, the loop is over and `None` is returned.
  unfoldable pub attempts : ℕ → Text → State → Outcome (Unit {0}) × State
  unfolding poll
  attempts zero sql s = (ok tt, s)
  attempts (suc n) sql s =
      let (reply, s1) = post sql s in
      elim reply [
        | unauthorized ↦ attempts n sql (connect s1)
        | accepted job ↦
            let (done, s2) = poll job s1 in
            elim done [
              | ok u ↦ (ok tt, s2)
              | raised message ↦ caught n message (attempts n sql s2) s2
            ]
        | failed message ↦ caught n message (attempts n sql s1) s1
      ]

  unfoldable pub execute : Text → State → Outcome (Unit {0}) × State
  unfolding attempts
  execute sql s = attempts 3 sql (if has_token s then s else connect s)

  unauthorized-attempts :
      (n : ℕ) (sql : Text) (s : State)
      → ((s : State) → (post sql s).0 ≡ unauthorized)
      → (attempts n sql s).0 ≡ ok tt
  unfolding attempts
  unauthorized-attempts zero sql s h = refl
  unauthorized-attempts (suc n) sql s h =
      rw (h s, attempts) (unauthorized-attempts n sql (connect (post sql s).1) h)

  -- When every submission of a statement gets status 401, whatever `connect` does, the call returns
  -- as if the statement had been run: nothing is raised.
  pub unauthorized-execute :
      (sql : Text) (s : State)
      → ((s : State) → (post sql s).0 ≡ unauthorized)
      → (execute sql s).0 ≡ ok tt
  unfolding execute
  unauthorized-execute sql s h =
      unauthorized-attempts 3 sql (if has_token s then s else connect s) h
