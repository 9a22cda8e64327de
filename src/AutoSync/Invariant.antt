-- ===== src/AutoSync/Invariant.antt =====
-- What holds of the scheduler between two events, and that each operation keeps it.
pub mod Reachable
use omnia_reader.Prelude.{
  ℕ, ◌-◌, not, ◌≡◌, refl, ◌⊎◌, inl, inr, Bool, true, false, Option, none, some, List, [], ◌∷◌,
  is_some, arith, Option-cases,
}
use omnia_reader.AutoSync.State.{
  SyncProviderKind, git, AutoSyncReason, reading_quiet, AutoSyncScheduler, Environment, PassTimer,
  ActivePass, idle, syncing, cancelling, scheduled, SyncWorkerResult, SyncActivityKind, book,
  annotation, bookmark,
}
use omnia_reader.AutoSync.Backoff.{
  activate_history, SyncError, clear_provider_retry_after, persist_provider_retry_after,
  provider_retry_after_seconds,
}
use omnia_reader.AutoSync.Requests.{
  schedule, request_immediate, request_quiet, schedule_revision_check,
}
use omnia_reader.AutoSync.Passes.{
  Outcome, fulfilled, rejected, timer_fired, settle, settle_pass, release_queue, settle_fulfilled,
  settle_failed, settle_limited, settle_rejected, record_success, cancel_pass, cancel_active,
  transfer_progressed, clear_history, record_manual_success, revision_timer_fired,
}
use omnia_reader.AutoSync.Lifecycle.{
  Event, started, stopped, requested, requested_quiet, activity, online_again, offline_now,
  visibility_changed, selection_changed, pass_timer, revision_timer, progressed, settled,
  cancel_requested, manual_success, history_cleared, step, run, start, stop, activate,
  handle_offline, on_activity, on_online, on_offline, on_visibility_change, reading_activity,
  check_git, online_reason,
}

abbrev pub reason_of : Option PassTimer → Option AutoSyncReason
reason_of none = none
reason_of (some timer) = some timer.for_reason

abbrev pub is_aborted : Option ActivePass → Bool
is_aborted none = false
is_aborted (some pass) = pass.aborted

pub record IsSound (s : AutoSyncScheduler) : Type 0 where
  -- The scheduled reason is that of the timer.
  pub timer_reason : reason_of s.timer ≡ s.scheduled_reason
  -- No pass is scheduled while one is in flight.
  pub one_pass : (s.timer ≡ none) ⊎ (s.active ≡ none)
  pub subscribed_started : s.subscribed ≡ s.started
  pub stopped_timer : s.started ≡ false → s.timer ≡ none
  pub stopped_revision : s.started ≡ false → s.revision_check_timer ≡ none
  pub stopped_queue : s.started ≡ false → s.queued_reason ≡ none
  pub quiet_in_flight : (s.queued_quiet_until ≡ none) ⊎ (is_some s.active ≡ true)
  pub syncing_in_flight : s.status.phase ≡ syncing → is_some s.active ≡ true
  pub cancelling_aborted : s.status.phase ≡ cancelling → is_aborted s.active ≡ true
  pub scheduled_timer : s.status.phase ≡ scheduled → is_some s.timer ≡ true
  pub stopped_idle : s.started ≡ false → s.status.phase ≡ idle
  pub stopped_aborted :
      s.started ≡ false → (is_some s.active ≡ false) ⊎ (is_aborted s.active ≡ true)

module _ (env : Environment) (s : AutoSyncScheduler) where
  pub request_immediate-IsSound :
      (reason : AutoSyncReason) → IsSound s → IsSound (request_immediate reason env s)
  unfolding request_immediate
  request_immediate-IsSound reason h = ground arith

  pub request_quiet-IsSound : (delay : ℕ) → IsSound s → IsSound (request_quiet delay env s)
  unfolding request_quiet
  request_quiet-IsSound delay h = ground arith

  pub schedule_revision_check-IsSound : IsSound s → IsSound (schedule_revision_check env s)
  unfolding schedule_revision_check
  schedule_revision_check-IsSound h = ground arith

  pub timer_fired-IsSound : IsSound s → IsSound (timer_fired env s)
  unfolding timer_fired
  timer_fired-IsSound h = ground arith

  pub begin_history-IsSound : (p : SyncProviderKind) → IsSound s → IsSound (activate_history p s)
  unfolding activate_history
  begin_history-IsSound p h = ground arith

  pub cancel_pass-IsSound : IsSound s → IsSound (cancel_pass s.active s).1
  unfolding cancel_pass
  cancel_pass-IsSound h = ground arith

  pub transfer_progressed-IsSound : (n : ℕ) → IsSound s → IsSound (transfer_progressed n s)
  unfolding transfer_progressed
  transfer_progressed-IsSound n h = ground arith

  pub clear_history-IsSound : (p : SyncProviderKind) → IsSound s → IsSound (clear_history p s)
  unfolding clear_history
  clear_history-IsSound p h = ground arith

  pub record_manual_success-IsSound :
      (result : SyncWorkerResult) → IsSound s → IsSound (record_manual_success result env s)
  unfolding record_manual_success record_success activate_history
  record_manual_success-IsSound result h = ground arith

  pub handle_offline-IsSound : IsSound s → IsSound (handle_offline env s)
  unfolding handle_offline
  handle_offline-IsSound h = ground arith

  pub stop-IsSound : IsSound s → IsSound (stop s)
  unfolding stop
  stop-IsSound h = ground arith

  pub begin_start-IsSound :
      s.started ≡ false
      → IsSound s
      → IsSound (record (activate env.selected (record s { started = true })) { subscribed = true })
  unfolding activate_history
  begin_start-IsSound fresh h = ground arith

  pub drop_revision-IsSound : IsSound s → IsSound (record s { revision_check_timer = none })
  drop_revision-IsSound h = ground arith

  pub drop_queue-IsSound : IsSound s → IsSound (record s { queued_reason = none })
  drop_queue-IsSound h = ground arith

release_queue-IsSound :
    (queued : Option AutoSyncReason) (until : Option ℕ) (env : Environment) (s : AutoSyncScheduler)
    → IsSound s
    → IsSound (release_queue queued until env s)
unfolding release_queue
release_queue-IsSound none until env s h = h
release_queue-IsSound (some reading_quiet) none env s h =
    request_quiet-IsSound env s s.quiet_interval_ms h
release_queue-IsSound (some reading_quiet) (some t) env s h =
    request_quiet-IsSound env s (t - env.now) h
release_queue-IsSound (some reason) until env s h = request_immediate-IsSound env s reason h

pub settle_fulfilled-IsSound :
    (pass : ActivePass) (result : SyncWorkerResult) (env : Environment) (s : AutoSyncScheduler)
    → s.active ≡ some pass
    → IsSound s
    → s.started ≡ true
    → IsSound (settle_fulfilled pass result env s)
unfolding settle_fulfilled record_success clear_provider_retry_after
settle_fulfilled-IsSound pass result env s e h on = release_queue-IsSound _ _ env _ (ground arith)

pub settle_failed-IsSound :
    (pass : ActivePass) (error : SyncError) (env : Environment) (s : AutoSyncScheduler)
    → s.active ≡ some pass
    → IsSound s
    → s.started ≡ true
    → IsSound (settle_failed pass error env s)
unfolding settle_failed
settle_failed-IsSound pass error env s e h on = release_queue-IsSound _ _ env _ (ground arith)

pub settle_limited-IsSound :
    (pass : ActivePass) (seconds : ℕ) (env : Environment) (s : AutoSyncScheduler)
    → s.active ≡ some pass
    → IsSound s
    → s.started ≡ true
    → IsSound (settle_limited pass seconds env s)
unfolding settle_limited persist_provider_retry_after schedule
settle_limited-IsSound pass seconds env s e h on = ground arith
