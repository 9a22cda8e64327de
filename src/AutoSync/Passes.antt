-- ===== src/AutoSync/Passes.antt =====
-- One pass: `runAutomatic` up to its `await`, and what it does when the worker settles; cancelling
-- it; and the record of its success.
use omnia_reader.Prelude.{
  ℕ, ◌+◌, ◌-◌, ◌*◌, String, Bool, true, false, not, Option, none, some, is_some, ◌&&◌,
  if◌then◌else◌,
}
use omnia_reader.AutoSync.State.{
  SyncProviderKind, git, mega, AutoSyncReason, reading_quiet, revision_check, automatic, manual,
  AutoSyncStatusReason, AutoSyncScheduler, Environment, provider_rate_limit, sync_failed,
  worker_message, StatusMessage, idle, syncing, cancelling, cancelled, offline, failed,
  SyncWorkerResult, AutoSyncHistory, ActivePass, merge_reasons, same_provider, PassTimer,
}
use omnia_reader.AutoSync.Backoff.{
  activate_history, clear_provider_retry_after, persist_provider_retry_after, store_history,
  SyncError, provider_retry_after_seconds,
}
use omnia_reader.AutoSync.Requests.{
  schedule, enqueue, request_immediate, request_quiet, schedule_revision_check,
  revision_polling_enabled,
}

-- `lastAttemptAt` after a success
abbrev attempt_after : AutoSyncStatusReason → ℕ → Option ℕ → Option ℕ
attempt_after manual completed_at last = some completed_at
attempt_after (automatic reason) completed_at last = last

abbrev recheck_mega : SyncProviderKind → Environment → AutoSyncScheduler → AutoSyncScheduler
recheck_mega git env s = s
recheck_mega mega env s = schedule_revision_check env s

unfoldable pub record_success :
    SyncProviderKind
    → SyncWorkerResult
    → ℕ
    → AutoSyncStatusReason
    → Environment
    → AutoSyncScheduler
    → AutoSyncScheduler
unfolding schedule_revision_check
record_success p result completed_at reason env s =
    let history : AutoSyncHistory = record {
      last_success_at = completed_at;
      last_result = result;
    } in
    recheck_mega p env (record s {
      stores = store_history p (some history) s.stores;
      status = record {
        phase = idle;
        reason = some reason;
        scheduled_for = none;
        last_attempt_at = attempt_after reason completed_at s.status.last_attempt_at;
        last_success_at = some completed_at;
        last_result = some result;
        transfer_progress = none;
        error_message = none;
      };
    })

-- `runAutomatic` up to the `await` of the worker
unfoldable pub begin_pass :
    Option SyncProviderKind → AutoSyncReason → Environment → AutoSyncScheduler → AutoSyncScheduler
begin_pass none reason env s = record s {
  status = record (s.status) { phase = idle; reason = none; transfer_progress = none };
}
begin_pass (some p) reason env s =
    if not s.started
    then record s {
      status = record (s.status) { phase = idle; reason = none; transfer_progress = none };
    }
    else if not env.online
    then record s {
      queued_reason = some (merge_reasons s.queued_reason reason);
      status = record (s.status) {
        phase = offline;
        reason = some (automatic reason);
        transfer_progress = none;
      };
    }
    else if is_some s.active
    then enqueue reason s
    else record s {
      status = record (s.status) {
        phase = syncing;
        reason = some (automatic reason);
        scheduled_for = none;
        last_attempt_at = some env.now;
        transfer_progress = none;
        error_message = none;
      };
      active = some (record { provider = p; for_reason = reason; aborted = false });
    }

abbrev fire : Option PassTimer → Environment → AutoSyncScheduler → AutoSyncScheduler
fire none env s = s
fire (some timer) env s =
    begin_pass env.selected timer.for_reason env
      (record s { timer = none; scheduled_reason = none })

-- The callback of the scheduled timer.
unfoldable pub timer_fired : Environment → AutoSyncScheduler → AutoSyncScheduler
unfolding begin_pass
timer_fired env s = fire s.timer env s

-- How the worker's promise ends.
pub data Outcome : Type 0 where
  fulfilled : SyncWorkerResult → Outcome
  rejected : SyncError → Outcome

-- The `finally` of a pass that neither was aborted nor met a rate limit: what was queued goes on.
unfoldable pub release_queue :
    Option AutoSyncReason → Option ℕ → Environment → AutoSyncScheduler → AutoSyncScheduler
release_queue none quiet_until env s = s
release_queue (some reading_quiet) none env s = request_quiet s.quiet_interval_ms env s
release_queue (some reading_quiet) (some until) env s = request_quiet (until - env.now) env s
release_queue (some reason) quiet_until env s = request_immediate reason env s

-- The fields that the `finally` clears whatever happened.
abbrev pub released : AutoSyncScheduler → AutoSyncScheduler
released s = record s { queued_reason = none; queued_quiet_until = none; active = none }

abbrev error_text : Option String → StatusMessage
error_text none = sync_failed
error_text (some message) = worker_message message

unfoldable pub settle_fulfilled :
    ActivePass → SyncWorkerResult → Environment → AutoSyncScheduler → AutoSyncScheduler
settle_fulfilled pass result env s =
    let t =
      record_success pass.provider result env.now (automatic pass.for_reason) env
        (clear_provider_retry_after pass.provider s) in
    release_queue t.queued_reason t.queued_quiet_until env (released t)

unfoldable pub settle_limited : ActivePass → ℕ → Environment → AutoSyncScheduler → AutoSyncScheduler
settle_limited pass seconds env s =
    let delay = seconds * 1000 in
    let t = persist_provider_retry_after pass.provider (env.now + delay) s in
    schedule (merge_reasons t.queued_reason pass.for_reason) delay (some provider_rate_limit)
      env.now (released t)

unfoldable pub settle_failed :
    ActivePass → SyncError → Environment → AutoSyncScheduler → AutoSyncScheduler
settle_failed pass error env s =
    let t = record s {
      status = record (s.status) {
        phase = failed;
        reason = some (automatic pass.for_reason);
        transfer_progress = none;
        error_message = some (error_text error.message);
      };
    } in
    release_queue t.queued_reason t.queued_quiet_until env (released t)

abbrev pub settle_rejected :
    ActivePass → SyncError → Option ℕ → Environment → AutoSyncScheduler → AutoSyncScheduler
settle_rejected pass error none env s = settle_failed pass error env s
settle_rejected pass error (some seconds) env s = settle_limited pass seconds env s

abbrev pub settle_outcome :
    ActivePass → Outcome → Environment → AutoSyncScheduler → AutoSyncScheduler
settle_outcome pass (fulfilled result) env s = settle_fulfilled pass result env s
settle_outcome pass (rejected error) env s =
    settle_rejected pass error (provider_retry_after_seconds error) env s

-- A pass that was aborted ends as cancelled, whatever the worker returned.
unfoldable pub settle_pass :
    Option ActivePass → Outcome → Environment → AutoSyncScheduler → AutoSyncScheduler
settle_pass none outcome env s = s
settle_pass (some pass) outcome env s =
    if not s.started
    then released s
    else if pass.aborted
    then released (record s {
      status = record (s.status) {
        phase = cancelled;
        reason = some (automatic pass.for_reason);
        transfer_progress = none;
        error_message = none;
      };
    })
    else settle_outcome pass outcome env s

-- The rest of `runAutomatic`, when the worker's promise settles.
unfoldable pub settle : Outcome → Environment → AutoSyncScheduler → AutoSyncScheduler
settle outcome env s = settle_pass s.active outcome env s

abbrev report : Option ActivePass → ℕ → AutoSyncScheduler → AutoSyncScheduler
report none progress s = s
report (some pass) progress s =
    if s.started && not pass.aborted
    then record s { status = record (s.status) { transfer_progress = some progress } }
    else s

-- `onTransferProgress`
unfoldable pub transfer_progressed : ℕ → AutoSyncScheduler → AutoSyncScheduler
transfer_progressed progress s = report s.active progress s

abbrev abort_pass : ActivePass → ActivePass
abort_pass pass = record pass { aborted = true }

unfoldable pub cancel_pass : Option ActivePass → AutoSyncScheduler → Bool × AutoSyncScheduler
cancel_pass none s = (false, s)
cancel_pass (some pass) s = if pass.aborted then (false, s) else (
  true,
  record s {
    queued_reason = none;
    queued_quiet_until = none;
    active = some (abort_pass pass);
    status = record (s.status) {
      phase = cancelling;
      scheduled_for = none;
      transfer_progress = none;
      error_message = none;
    };
  },
)

unfoldable pub cancel_active : AutoSyncScheduler → Bool × AutoSyncScheduler
unfolding cancel_pass
cancel_active s = cancel_pass s.active s

abbrev pub record_manual :
    Option SyncProviderKind → SyncWorkerResult → Environment → AutoSyncScheduler → AutoSyncScheduler
record_manual none result env s = s
record_manual (some p) result env s =
    record_success p result env.now manual env (record (activate_history p s) {
      timer = none;
      scheduled_reason = none;
      queued_reason = none;
    })

-- with the default of `completedAt`
unfoldable pub record_manual_success :
    SyncWorkerResult → Environment → AutoSyncScheduler → AutoSyncScheduler
record_manual_success result env s = record_manual env.selected result env s

abbrev shows_history : SyncProviderKind → Option SyncProviderKind → Bool
shows_history p none = false
shows_history p (some q) = same_provider q p

unfoldable pub clear_history : SyncProviderKind → AutoSyncScheduler → AutoSyncScheduler
clear_history p s =
    let t = record s { stores = store_history p none s.stores } in
    if shows_history p s.history_provider
    then record t {
      status = record (t.status) {
        last_attempt_at = none;
        last_success_at = none;
        last_result = none;
      };
    }
    else t

-- The callback of the revision timer.
unfoldable pub revision_timer_fired : Environment → AutoSyncScheduler → AutoSyncScheduler
revision_timer_fired env s =
    let t = record s { revision_check_timer = none } in
    if revision_polling_enabled env t && (not (is_some t.timer) && not (is_some t.active))
    then schedule_revision_check env (request_immediate revision_check env t)
    else schedule_revision_check env t
