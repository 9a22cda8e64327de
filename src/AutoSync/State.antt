-- ===== src/AutoSync/State.antt =====
-- The scheduler's fields, its environment and its status. Times are milliseconds, as `Date.now()`
-- gives them; the status holds them before `toISOString`. What the listeners of the status do
-- stays outside: the scheduler swallows their errors and reads nothing back from them.
use omnia_reader.Prelude.{ℕ, String, Bool, true, false, Option, none, some}

pub data SyncProviderKind : Type 0 where
  git mega : SyncProviderKind

pub data AutoSyncReason : Type 0 where
  startup book_change reading_quiet background went_online : AutoSyncReason
  destination_selected revision_check : AutoSyncReason

pub data AutoSyncStatusReason : Type 0 where
  automatic : AutoSyncReason → AutoSyncStatusReason
  manual : AutoSyncStatusReason

pub data AutoSyncPhase : Type 0 where
  idle scheduled syncing cancelling cancelled offline failed : AutoSyncPhase

pub data SyncActivityKind : Type 0 where
  book progress bookmark annotation preference logical_book_change : SyncActivityKind

pub record SyncWorkerResult : Type 0 where
  pub pulled : ℕ
  pub pushed : ℕ
  pub conflicts : ℕ
  pub rejected : ℕ
  pub unchanged : Bool
  pub maintenance_pending : Bool

pub record AutoSyncHistory : Type 0 where
  pub last_success_at : ℕ
  pub last_result : SyncWorkerResult

pub data StatusMessage : Type 0 where
  provider_rate_limit sync_failed : StatusMessage
  worker_message : String → StatusMessage

pub record AutoSyncStatus : Type 0 where
  pub phase : AutoSyncPhase
  pub reason : Option AutoSyncStatusReason
  pub scheduled_for : Option ℕ
  pub last_attempt_at : Option ℕ
  pub last_success_at : Option ℕ
  pub last_result : Option SyncWorkerResult
  pub transfer_progress : Option ℕ
  pub error_message : Option StatusMessage

-- A value for each provider: the records and sets that are keyed by one.
pub record PerProvider {ℓ} (A : Type ℓ) : Type ℓ where
  pub for_git : A
  pub for_mega : A

module _ {ℓ} {A : Type ℓ} where
  abbrev pub at_provider : SyncProviderKind → PerProvider A → A
  at_provider git r = r.for_git
  at_provider mega r = r.for_mega

  abbrev pub set_provider : SyncProviderKind → A → PerProvider A → PerProvider A
  set_provider git a r = record r { for_git = a }
  set_provider mega a r = record r { for_mega = a }

abbrev pub same_provider : SyncProviderKind → SyncProviderKind → Bool
same_provider git git = true
same_provider mega mega = true
same_provider git mega = false
same_provider mega git = false

-- The host's storage behind the two stores. A call on a storage that is not available throws, and
-- the scheduler goes on without it.
pub record Stores : Type 0 where
  pub available : Bool
  pub retry_after : PerProvider (Option ℕ)
  pub history : PerProvider (Option AutoSyncHistory)

-- A timer that was set, with what its callback has captured.
pub record PassTimer : Type 0 where
  pub due : ℕ
  pub for_reason : AutoSyncReason

-- `activeSync` and its `activeSyncController`, which are set and cleared together, with what the
-- pass has captured.
pub record ActivePass : Type 0 where
  pub provider : SyncProviderKind
  pub for_reason : AutoSyncReason
  pub aborted : Bool

pub record AutoSyncScheduler : Type 0 where
  pub quiet_interval_ms : ℕ
  pub interactive_quiet_interval_ms : ℕ
  pub revision_check_interval_ms : ℕ
  pub stores : Stores
  pub provider_retry_after_at : PerProvider (Option ℕ)
  pub loaded_provider_retry_after : PerProvider Bool
  pub history_provider : Option SyncProviderKind
  pub status : AutoSyncStatus
  pub started : Bool
  -- whether the callbacks of the environment, the activity and the selection are registered
  pub subscribed : Bool
  pub timer : Option PassTimer
  pub revision_check_timer : Option ℕ
  pub scheduled_reason : Option AutoSyncReason
  pub queued_reason : Option AutoSyncReason
  pub queued_quiet_until : Option ℕ
  pub active : Option ActivePass

-- What a handler reads of its environment: `now()`, `isOnline()`, `isBackground()` and
-- `selection.current()`. A handler runs to its end before any of these changes.
pub record Environment : Type 0 where
  pub now : ℕ
  pub online : Bool
  pub in_background : Bool
  pub selected : Option SyncProviderKind

abbrev pub merge_reasons : Option AutoSyncReason → AutoSyncReason → AutoSyncReason
merge_reasons none incoming = incoming
merge_reasons (some reading_quiet) incoming = incoming
merge_reasons (some current) incoming = current

abbrev pub is_quiet : AutoSyncReason → Bool
is_quiet reading_quiet = true
is_quiet _ = false

-- `statusValue.lastResult?.maintenancePending === true`
abbrev pub maintenance_is_pending : Option SyncWorkerResult → Bool
maintenance_is_pending none = false
maintenance_is_pending (some result) = result.maintenance_pending

abbrev pub clear_scheduled_timer : AutoSyncScheduler → AutoSyncScheduler
clear_scheduled_timer s = record s { timer = none; scheduled_reason = none }

abbrev pub clear_revision_check_timer : AutoSyncScheduler → AutoSyncScheduler
clear_revision_check_timer s = record s { revision_check_timer = none }
