-- ===== src/Workers/Types.antt =====
-- What a worker calls, and the state that it keeps. The answers to its calls are any function of the
-- calls and answers so far, and so is the moment at which the signal aborts.
use omnia_reader.Prelude.{ℕ, String, Bool, true, false, Option, none, some, List, ◌∷◌}
use omnia_reader.Prelude.Action.{Outcome, Action, returned, thrown, pure, ◌>>=◌, ◌>>◌}
use omnia_reader.AutoSync.State.{SyncProviderKind, SyncActivityKind, SyncWorkerResult}

-- `unknown` payloads are values of P.
pub record SyncOperation (P : Type 0) : Type 0 where
  pub id : String
  pub entity : SyncActivityKind
  pub entity_id : String
  pub is_delete : Bool
  pub revision : ℕ
  pub created_at : String
  pub payload : P

pub record SyncWorkerOptions : Type 0 where
  pub full_reconciliation : Bool

pub data WorkerError : Type 0 where
  cancelled only_reading_state : WorkerError
  failure : String → WorkerError

abbrev pub empty_sync_result : SyncWorkerResult
empty_sync_result = record {
  pulled = 0;
  pushed = 0;
  conflicts = 0;
  rejected = 0;
  unchanged = false;
  maintenance_pending = false;
}

abbrev pub unchanged_result : SyncWorkerResult
unchanged_result = record {
  pulled = 0;
  pushed = 0;
  conflicts = 0;
  rejected = 0;
  unchanged = true;
  maintenance_pending = false;
}

-- A call and its answer. Calls that throw stand in the history too.
pub data Event (P : Type 0) : Type 0 where
  asked_pending : Outcome WorkerError (List (SyncOperation P)) → Event P
  asked_revision : Outcome WorkerError (Option String) → Event P
  read_checkpoint : Outcome WorkerError (Option String) → Event P
  wrote_checkpoint : Option String → Event P
  delegated : Outcome WorkerError SyncWorkerResult → Event P
  targeted : List (SyncOperation P) → Outcome WorkerError SyncWorkerResult → Event P

abbrev pub History : Type 0 → Type 0
History P = List (Event P)

pub record Ports (P : Type 0) : Type 0 where
  pub selected : History P → Option SyncProviderKind
  pub has_revisions : Bool
  pub pending : History P → Outcome WorkerError (List (SyncOperation P))
  pub destination_revision : History P → Outcome WorkerError (Option String)
  pub checkpoint : History P → Outcome WorkerError (Option String)
  pub delegate : History P → Outcome WorkerError SyncWorkerResult
  pub has_reading_state_worker : Bool
  pub reading_state : List (SyncOperation P) → History P → Outcome WorkerError SyncWorkerResult
  pub aborted : History P → Option WorkerError

-- `readingStateContinuationScope`, and the history, the last call first.
pub record Worker (P : Type 0) : Type 0 where
  pub scope : Option String
  pub history : History P

abbrev pub WorkerAction : Type 0 → Type 0 → Type 0
WorkerAction P A = Action WorkerError (Worker P) A

module _ {P : Type 0} where
  -- Makes a call, writes it down and answers.
  abbrev pub ask :
      {A : Type 0}
      → (Outcome WorkerError A → Event P)
      → (History P → Outcome WorkerError A)
      → WorkerAction P A
  ask event answer s =
      let given = answer s.history in
      (given, record { scope = s.scope; history = event given ∷ s.history })

  abbrev pub set_scope : Option String → WorkerAction P Unit
  set_scope scope s = (returned tt, record { scope = scope; history = s.history })

  -- `safeCheckpointWrite`: what the store throws is dropped.
  abbrev pub write_checkpoint : Option String → WorkerAction P Unit
  write_checkpoint revision s =
      (returned tt, record { scope = s.scope; history = wrote_checkpoint revision ∷ s.history })

  abbrev pub throw_some : Option WorkerError → WorkerAction P Unit
  throw_some none s = (returned tt, s)
  throw_some (some e) s = (thrown e, s)

  unfoldable pub throw_if_aborted : Ports P → WorkerAction P Unit
  throw_if_aborted ports s = throw_some (ports.aborted s.history) s

  -- A call, and the test of the signal that follows it.
  unfoldable pub then_check : {A : Type 0} → Ports P → WorkerAction P A → WorkerAction P A
  unfolding throw_if_aborted
  then_check ports m = m >>= λ a. throw_if_aborted ports >> pure a
