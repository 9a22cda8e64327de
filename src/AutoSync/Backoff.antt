-- ===== src/AutoSync/Backoff.antt =====
-- The deadline that a provider's rate limit sets, and the history of the selected provider.
use omnia_reader.Prelude.{
  ℕ, ◌-◌, Bool, true, false, Option, none, some, String, ltb, leb, eqb, ◌&&◌, if◌then◌else◌,
}
use omnia_reader.AutoSync.State.{
  SyncProviderKind, PerProvider, at_provider, set_provider, same_provider, Stores, AutoSyncHistory,
  AutoSyncScheduler, AutoSyncStatus,
}

-- `rateLimitStore.readRetryAfter` in its `try`
abbrev pub stored_retry_after : SyncProviderKind → Stores → Option ℕ
stored_retry_after p stores = if stores.available then at_provider p stores.retry_after else none

-- `rateLimitStore.writeRetryAfter` in its `try`
abbrev pub store_retry_after : SyncProviderKind → Option ℕ → Stores → Stores
store_retry_after p at stores =
    if stores.available
    then record stores { retry_after = set_provider p at stores.retry_after }
    else stores

abbrev pub stored_history : SyncProviderKind → Stores → Option AutoSyncHistory
stored_history p stores = if stores.available then at_provider p stores.history else none

abbrev pub store_history : SyncProviderKind → Option AutoSyncHistory → Stores → Stores
store_history p history stores =
    if stores.available
    then record stores { history = set_provider p history stores.history }
    else stores

abbrev loaded : SyncProviderKind → AutoSyncScheduler → PerProvider Bool
loaded p s = set_provider p true s.loaded_provider_retry_after

unfoldable pub clear_provider_retry_after : SyncProviderKind → AutoSyncScheduler → AutoSyncScheduler
clear_provider_retry_after p s = record s {
  loaded_provider_retry_after = loaded p s;
  provider_retry_after_at = set_provider p none s.provider_retry_after_at;
  stores = store_retry_after p none s.stores;
}

unfoldable pub persist_provider_retry_after :
    SyncProviderKind → ℕ → AutoSyncScheduler → AutoSyncScheduler
persist_provider_retry_after p retry_after_at s = record s {
  loaded_provider_retry_after = loaded p s;
  provider_retry_after_at = set_provider p (some retry_after_at) s.provider_retry_after_at;
  stores = store_retry_after p (some retry_after_at) s.stores;
}

abbrev adopt_stored : SyncProviderKind → Option ℕ → PerProvider (Option ℕ) → PerProvider (Option ℕ)
adopt_stored p none deadlines = deadlines
adopt_stored p (some stored) deadlines = set_provider p (some stored) deadlines

-- The deadline of the store is read once for each provider.
unfoldable pub load_provider_retry_after : SyncProviderKind → AutoSyncScheduler → AutoSyncScheduler
load_provider_retry_after p s =
    if at_provider p s.loaded_provider_retry_after then s else record s {
      loaded_provider_retry_after = loaded p s;
      provider_retry_after_at =
          adopt_stored p (stored_retry_after p s.stores) s.provider_retry_after_at;
    }

-- The delay until the deadline; a deadline that has passed is cleared.
unfoldable pub delay_until :
    SyncProviderKind → Option ℕ → ℕ → AutoSyncScheduler → ℕ × AutoSyncScheduler
unfolding clear_provider_retry_after
delay_until p none now s = (0, s)
delay_until p (some retry_after_at) now s =
    if ltb now retry_after_at
    then (retry_after_at - now, s)
    else (0, clear_provider_retry_after p s)

unfoldable pub read_provider_retry_delay :
    SyncProviderKind → ℕ → AutoSyncScheduler → ℕ × AutoSyncScheduler
unfolding load_provider_retry_after delay_until
read_provider_retry_delay p now s =
    let t = load_provider_retry_after p s in
    delay_until p (at_provider p t.provider_retry_after_at) now t

-- A rejected pass: the status and the delay that its error carries, if it has such fields.
pub record SyncError : Type 0 where
  pub http_status : Option ℕ
  pub retry_after_seconds : Option ℕ
  pub message : Option String

abbrev pub default_retry_seconds : ℕ
default_retry_seconds = 60

abbrev is_429 : Option ℕ → Bool
is_429 none = false
is_429 (some code) = eqb code 429

abbrev bounded_seconds : Option ℕ → ℕ
bounded_seconds none = default_retry_seconds
bounded_seconds (some value) =
    if leb 1 value && leb value 86400 then value else default_retry_seconds

unfoldable pub provider_retry_after_seconds : SyncError → Option ℕ
provider_retry_after_seconds error =
    if is_429 error.http_status then some (bounded_seconds error.retry_after_seconds) else none

abbrev shown_history : Option AutoSyncHistory → AutoSyncStatus → AutoSyncStatus
shown_history none status = record status {
  last_attempt_at = none;
  last_success_at = none;
  last_result = none;
}
shown_history (some h) status = record status {
  last_attempt_at = none;
  last_success_at = some h.last_success_at;
  last_result = some h.last_result;
}

abbrev is_active_history : SyncProviderKind → Option SyncProviderKind → Bool
is_active_history p none = false
is_active_history p (some q) = same_provider q p

unfoldable pub activate_history : SyncProviderKind → AutoSyncScheduler → AutoSyncScheduler
activate_history p s = if is_active_history p s.history_provider then s else record s {
  history_provider = some p;
  status = shown_history (stored_history p s.stores) s.status;
}
