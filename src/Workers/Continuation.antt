-- ===== src/Workers/Continuation.antt =====
-- A run for reading state alone, which follows without a checkpoint.
use omnia_reader.Prelude.{String, Bool, ◌≡◌, true, false, none, some, List, [], ◌∷◌, any}
use omnia_reader.Prelude.Action.{returned}
use omnia_reader.AutoSync.State.{git}
use omnia_reader.Workers.Types.{
  SyncOperation, SyncWorkerOptions, Event, asked_pending, asked_revision, read_checkpoint,
  delegated, targeted, History, Ports,
}
use omnia_reader.Workers.Revisions.{revision_scope, is_reading_state_only}

module _ {P : Type 0} where
  -- The event is a complete pass.
  abbrev pub is_complete : Event P → Bool
  is_complete (delegated o) = true
  is_complete _ = false

  -- The event is a pass for reading state alone.
  abbrev pub is_targeted : Event P → Bool
  is_targeted (targeted operations o) = true
  is_targeted _ = false

  -- There has been a pass for reading state alone, and no complete one.
  abbrev pub IsTargetedOnly : History P → Type 0
  IsTargetedOnly h = (any is_targeted h ≡ true) × (any is_complete h ≡ false)

-- What stands before the worker: Git is selected, the run is not aborted, each operation that waits is
-- one of reading state and there is one, the destination has that revision, which names no scope,
-- and no checkpoint is trusted.
pub record IsUntrusted {P : Type 0} (ports : Ports P) (operations : List (SyncOperation P))
    (revision : String) : Type 0 where
  pub on_git : (h : History P) → ports.selected h ≡ some git
  pub with_revisions : ports.has_revisions ≡ true
  pub with_worker : ports.has_reading_state_worker ≡ true
  pub not_aborted : (h : History P) → ports.aborted h ≡ none
  pub waiting : ports.pending [] ≡ returned operations
  pub for_reading_state : is_reading_state_only operations ≡ true
  pub at_revision : (h : History P) → ports.destination_revision h ≡ returned (some revision)
  pub without_scope : revision_scope revision ≡ none
  pub without_checkpoint : (h : History P) → ports.checkpoint h ≡ returned none

module _ {P : Type 0} (ports : Ports P) (operations : List (SyncOperation P)) (revision : String)
    (untrusted : IsUntrusted ports operations revision) (options : SyncWorkerOptions)
    (partial : options.full_reconciliation ≡ false) where
  abbrev asked : History P
  asked = asked_pending (returned operations) ∷ []

  abbrev probed : History P
  probed = asked_revision (returned (some revision)) ∷ asked

  abbrev unread : History P
  unread = read_checkpoint (returned none) ∷ probed
