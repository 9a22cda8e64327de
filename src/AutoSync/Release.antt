-- ===== src/AutoSync/Release.antt =====
-- What was requested during a pass is scheduled when the pass settles.
use omnia_reader.Prelude.{ℕ, ◌≡◌, refl, Bool, true, false, Option, none, some, is_some, arith, ◌∙◌}
use omnia_reader.AutoSync.State.{
  AutoSyncReason, reading_quiet, AutoSyncScheduler, Environment, ActivePass, is_quiet,
  SyncWorkerResult,
}
use omnia_reader.AutoSync.Backoff.{
  provider_retry_after_seconds, clear_provider_retry_after, SyncError,
}
use omnia_reader.AutoSync.Requests.{request_immediate, schedule_revision_check}
use omnia_reader.AutoSync.Passes.{
  Outcome, fulfilled, rejected, release_queue, settle, settle_outcome, settle_fulfilled,
  settle_failed, settle_rejected, record_success,
}
use omnia_reader.AutoSync.Wakeups.{request_immediate_kept, settle-open}

-- The worker's promise was rejected with a rate limit.
abbrev pub is_limited : Outcome → Bool
is_limited (fulfilled result) = false
is_limited (rejected error) = is_some (provider_retry_after_seconds error)

-- A started scheduler without a pass.
abbrev pub IsIdle : AutoSyncScheduler → Type 0
IsIdle s = (s.started ≡ true) × (s.active ≡ none)

module _ (env : Environment) (online : env.online ≡ true)
    (chosen : is_some env.selected ≡ true) where
  request_immediate_scheduled :
      (reason : AutoSyncReason) (s : AutoSyncScheduler)
      → IsIdle s
      → (request_immediate reason env s).scheduled_reason ≡ some reason
  request_immediate_scheduled reason s h =
      ground (arith, request_immediate_kept reason env s h.0 chosen)

  release_queue_scheduled :
      (queued : Option AutoSyncReason) (reason : AutoSyncReason) (until : Option ℕ)
      (s : AutoSyncScheduler)
      → queued ≡ some reason
      → is_quiet reason ≡ false
      → IsIdle s
      → (release_queue queued until env s).scheduled_reason ≡ some reason
  unfolding release_queue
  release_queue_scheduled none reason until s e pressing h = cc
  release_queue_scheduled (some reading_quiet) reason until s e pressing h = ground arith
  release_queue_scheduled (some queued) reason until s e pressing h =
      request_immediate_scheduled queued s h ∙ e

  settle_fulfilled_scheduled :
      (pass : ActivePass) (result : SyncWorkerResult) (reason : AutoSyncReason)
      (s : AutoSyncScheduler)
      → s.started ≡ true
      → s.queued_reason ≡ some reason
      → is_quiet reason ≡ false
      → (settle_fulfilled pass result env s).scheduled_reason ≡ some reason
  unfolding settle_fulfilled record_success clear_provider_retry_after schedule_revision_check
  settle_fulfilled_scheduled pass result reason s on e pressing =
      release_queue_scheduled _ reason _ _ (ground arith) pressing (ground arith)

  settle_failed_scheduled :
      (pass : ActivePass) (error : SyncError) (reason : AutoSyncReason) (s : AutoSyncScheduler)
      → s.started ≡ true
      → s.queued_reason ≡ some reason
      → is_quiet reason ≡ false
      → (settle_failed pass error env s).scheduled_reason ≡ some reason
  unfolding settle_failed
  settle_failed_scheduled pass error reason s on e pressing =
      release_queue_scheduled _ reason _ _ e pressing (on, refl)

  settle_outcome_scheduled :
      (pass : ActivePass) (outcome : Outcome) (reason : AutoSyncReason) (s : AutoSyncScheduler)
      → s.started ≡ true
      → s.queued_reason ≡ some reason
      → is_quiet reason ≡ false
      → is_limited outcome ≡ false
      → (settle_outcome pass outcome env s).scheduled_reason ≡ some reason
  settle_outcome_scheduled pass (fulfilled result) reason s on e pressing unlimited =
      settle_fulfilled_scheduled pass result reason s on e pressing
  settle_outcome_scheduled pass (rejected error) reason s on e pressing unlimited =
      by_limit (provider_retry_after_seconds error) unlimited
    where
      by_limit :
          (o : Option ℕ)
          → is_some o ≡ false
          → (settle_rejected pass error o env s).scheduled_reason ≡ some reason
      by_limit none plain = settle_failed_scheduled pass error reason s on e pressing
      by_limit (some seconds) plain = cc

-- When a pass that was not aborted settles without a rate limit, while the host is online and a
-- provider is selected, the queued reason is scheduled, unless it is the quiet one.
pub settle-scheduled :
    (pass : ActivePass) (outcome : Outcome) (reason : AutoSyncReason) (env : Environment)
    (s : AutoSyncScheduler)
    → s.active ≡ some pass
    → s.started ≡ true
    → pass.aborted ≡ false
    → s.queued_reason ≡ some reason
    → is_quiet reason ≡ false
    → is_limited outcome ≡ false
    → env.online ≡ true
    → is_some env.selected ≡ true
    → (settle outcome env s).scheduled_reason ≡ some reason
settle-scheduled pass outcome reason env s flying on live e pressing unlimited online chosen =
    rw (settle-open pass outcome env s flying on live)
      (settle_outcome_scheduled env online chosen pass outcome reason s on e pressing unlimited)
