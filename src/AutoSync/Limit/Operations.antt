-- ===== src/AutoSync/Limit/Operations.antt =====
-- What the operations of the scheduler keep while a rate limit lasts.
use omnia_reader.Prelude.{
  ℕ, ◌+◌, ◌*◌, ◌<◌, Bool, ◌≡◌, refl, true, false, Option, none, some, leb, arith,
}
use omnia_reader.AutoSync.State.{
  SyncProviderKind, git, mega, AutoSyncReason, AutoSyncStatusReason, AutoSyncScheduler, Environment,
  PassTimer, ActivePass, at_provider, SyncWorkerResult,
}
use omnia_reader.AutoSync.Backoff.{
  activate_history, read_provider_retry_delay, delay_until, load_provider_retry_after,
  clear_provider_retry_after, SyncError, provider_retry_after_seconds, persist_provider_retry_after,
}
use omnia_reader.AutoSync.Requests.{
  schedule, request_for, request_immediate, request_quiet_for, request_quiet,
  schedule_revision_check,
}
use omnia_reader.AutoSync.Passes.{
  Outcome, rejected, settle, settle_pass, settle_limited, timer_fired, cancel_active, cancel_pass,
  record_success, transfer_progressed, clear_history,
}
use omnia_reader.AutoSync.Lifecycle.{Event, pass_timer, stop, activate, handle_offline, on_offline}
use omnia_reader.AutoSync.Wakeups.{settle-open}

-- The timer, if there is one, is not due before that time.
abbrev pub is_late : ℕ → Option PassTimer → Bool
is_late deadline none = true
is_late deadline (some timer) = leb deadline timer.due

-- A timer fires when it is due.
abbrev pub is_due : Option PassTimer → ℕ → Bool
is_due none now = true
is_due (some timer) now = leb timer.due now

-- Any event may happen at any time, but for the timer's.
abbrev pub may_happen : Event → ℕ → Option PassTimer → Bool
may_happen pass_timer now timer = is_due timer now
may_happen _ now timer = true

-- The deadline is known for the provider, no pass is in flight, and none is set for an earlier time.
abbrev pub IsWaiting : SyncProviderKind → ℕ → AutoSyncScheduler → Type 0
IsWaiting p deadline s =
    (at_provider p s.loaded_provider_retry_after ≡ true)
    × ((at_provider p s.provider_retry_after_at ≡ some deadline)
        × ((s.active ≡ none) × (is_late deadline s.timer ≡ true)))

pub settle-IsWaiting :
    (pass : ActivePass) (error : SyncError) (seconds : ℕ) (env : Environment)
    (s : AutoSyncScheduler)
    → s.active ≡ some pass
    → s.started ≡ true
    → pass.aborted ≡ false
    → provider_retry_after_seconds error ≡ some seconds
    → IsWaiting pass.provider (env.now + seconds * 1000) (settle (rejected error) env s)
unfolding settle_limited schedule persist_provider_retry_after
settle-IsWaiting pass error seconds env s e on live limited =
    rw (settle-open pass (rejected error) env s e on live, limited) (ground arith)

module _ (deadline : ℕ) (env : Environment) (s : AutoSyncScheduler)
    (early : env.now < deadline) where
  pub request_for-IsWaiting :
      (p : SyncProviderKind) (reason : AutoSyncReason)
      → IsWaiting p deadline s
      → IsWaiting p deadline (request_for (some p) reason env s)
  unfolding request_for schedule activate_history read_provider_retry_delay
      load_provider_retry_after delay_until clear_provider_retry_after
  request_for-IsWaiting git reason h = ground arith
  request_for-IsWaiting mega reason h = ground arith

  pub request_quiet_for-IsWaiting :
      (p : SyncProviderKind) (delay : ℕ)
      → IsWaiting p deadline s
      → IsWaiting p deadline (request_quiet_for (some p) delay env s)
  unfolding request_quiet_for schedule activate_history read_provider_retry_delay
      load_provider_retry_after delay_until clear_provider_retry_after
  request_quiet_for-IsWaiting git delay h = ground arith
  request_quiet_for-IsWaiting mega delay h = ground arith

  pub request_immediate-IsWaiting :
      (p : SyncProviderKind) (reason : AutoSyncReason)
      → env.selected ≡ some p
      → IsWaiting p deadline s
      → IsWaiting p deadline (request_immediate reason env s)
  unfolding request_immediate
  request_immediate-IsWaiting p reason chosen h = rw chosen (request_for-IsWaiting p reason h)

  pub request_quiet-IsWaiting :
      (p : SyncProviderKind) (delay : ℕ)
      → env.selected ≡ some p
      → IsWaiting p deadline s
      → IsWaiting p deadline (request_quiet delay env s)
  unfolding request_quiet
  request_quiet-IsWaiting p delay chosen h = rw chosen (request_quiet_for-IsWaiting p delay h)

module _ (p : SyncProviderKind) (deadline : ℕ) (env : Environment) (s : AutoSyncScheduler)
    (h : IsWaiting p deadline s) where
  pub schedule_revision_check-IsWaiting : IsWaiting p deadline (schedule_revision_check env s)
  unfolding schedule_revision_check
  schedule_revision_check-IsWaiting = ground arith

  pub activate_history-IsWaiting :
      (q : SyncProviderKind) → IsWaiting p deadline (activate_history q s)
  unfolding activate_history
  activate_history-IsWaiting q = ground arith

  pub activate-IsWaiting : (o : Option SyncProviderKind) → IsWaiting p deadline (activate o s)
  activate-IsWaiting none = h
  activate-IsWaiting (some q) = activate_history-IsWaiting q

  pub stop-IsWaiting : IsWaiting p deadline (stop s)
  unfolding stop
  stop-IsWaiting = ground arith

  pub on_offline-IsWaiting : IsWaiting p deadline (on_offline env s)
  unfolding on_offline handle_offline
  on_offline-IsWaiting = ground arith

  pub timer_fired-IsWaiting :
      env.now < deadline
      → (t : Option PassTimer) → s.timer ≡ t
      → is_due t env.now ≡ true
      → IsWaiting p deadline (timer_fired env s)
  unfolding timer_fired
  timer_fired-IsWaiting early none e due = rw e (h.0, (h.1.0, (h.1.1.0, refl)))
  timer_fired-IsWaiting early (some timer) e due = absurd (ground arith)

  pub transfer_progressed-IsWaiting :
      (amount : ℕ) → IsWaiting p deadline (transfer_progressed amount s)
  unfolding transfer_progressed
  transfer_progressed-IsWaiting amount = ground arith

  pub settle_late-IsWaiting : (outcome : Outcome) → IsWaiting p deadline (settle outcome env s)
  unfolding settle settle_pass
  settle_late-IsWaiting outcome = ground arith

  pub cancel_active-IsWaiting : IsWaiting p deadline (cancel_active s).1
  unfolding cancel_active cancel_pass
  cancel_active-IsWaiting = ground arith

  pub clear_history-IsWaiting : (q : SyncProviderKind) → IsWaiting p deadline (clear_history q s)
  unfolding clear_history
  clear_history-IsWaiting q = ground arith

  pub record_success-IsWaiting :
      (q : SyncProviderKind) (result : SyncWorkerResult) (at : ℕ) (reason : AutoSyncStatusReason)
      → IsWaiting p deadline (record_success q result at reason env s)
  unfolding record_success schedule_revision_check
  record_success-IsWaiting git result at reason = ground arith
  record_success-IsWaiting mega result at reason = ground arith
