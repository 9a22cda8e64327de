-- ===== src/AutoSync/Limit.antt =====
-- A rate limit, from the pass that meets it to its end: what the scheduler does meanwhile.
pub mod Operations
use omnia_reader.Prelude.{
  ℕ, ◌+◌, ◌*◌, ◌≤◌, ◌<◌, Bool, ◌≡◌, refl, true, false, not, ◌&&◌, Option, none, some, List, [], ◌∷◌,
  is_some, arith, if-holds,
}
use omnia_reader.AutoSync.State.{
  SyncProviderKind, git, mega, reading_quiet, startup, book_change, background, went_online,
  revision_check, destination_selected, AutoSyncReason, manual, AutoSyncScheduler, Environment,
  ActivePass, SyncActivityKind, book, progress, bookmark, annotation, preference,
  logical_book_change, SyncWorkerResult,
}
use omnia_reader.AutoSync.Backoff.{activate_history, SyncError, provider_retry_after_seconds}
use omnia_reader.AutoSync.Requests.{
  request_immediate, schedule_revision_check, revision_polling_enabled,
}
use omnia_reader.AutoSync.Passes.{
  rejected, settle, record_manual, record_manual_success, revision_timer_fired,
}
use omnia_reader.AutoSync.Lifecycle.{
  Event, started, stopped, requested, requested_quiet, activity, online_again, offline_now,
  visibility_changed, selection_changed, pass_timer, revision_timer, progressed, settled,
  cancel_requested, manual_success, history_cleared, status_read, subscribed_only, step, run, start,
  on_activity, on_online, on_offline, on_visibility_change, reading_activity, check_git,
}
use omnia_reader.AutoSync.Limit.Operations.{
  may_happen, IsWaiting, settle-IsWaiting, request_immediate-IsWaiting, request_quiet-IsWaiting,
  schedule_revision_check-IsWaiting, activate_history-IsWaiting, activate-IsWaiting, stop-IsWaiting,
  on_offline-IsWaiting, timer_fired-IsWaiting, transfer_progressed-IsWaiting, settle_late-IsWaiting,
  cancel_active-IsWaiting, clear_history-IsWaiting, record_success-IsWaiting,
}

module _ (p : SyncProviderKind) (deadline : ℕ) (env : Environment) (s : AutoSyncScheduler)
    (early : env.now < deadline) (chosen : env.selected ≡ some p) where
  record_manual_success-IsWaiting :
      (result : SyncWorkerResult)
      → IsWaiting p deadline s
      → IsWaiting p deadline (record_manual_success result env s)
  unfolding record_manual_success
  record_manual_success-IsWaiting result h = by_provider env.selected
    where
      by_provider :
          (o : Option SyncProviderKind) → IsWaiting p deadline (record_manual o result env s)
      by_provider none = h
      by_provider (some q) =
          let t = activate_history-IsWaiting p deadline env s h q in
          record_success-IsWaiting p deadline env
            (record (activate_history q s) {
              timer = none;
              scheduled_reason = none;
              queued_reason = none;
            })
            (t.0, (t.1.0, (t.1.1.0, refl))) q result env.now manual

  revision_timer_fired-IsWaiting :
      IsWaiting p deadline s → IsWaiting p deadline (revision_timer_fired env s)
  unfolding revision_timer_fired
  revision_timer_fired-IsWaiting h =
      let t = record s { revision_check_timer = none } in
      if-holds (IsWaiting p deadline)
        (revision_polling_enabled env t && (not (is_some t.timer) && not (is_some t.active))) _ _
        (λ polls.
          schedule_revision_check-IsWaiting p deadline env _
            (request_immediate-IsWaiting deadline env t early p revision_check chosen h))
        (λ quiet. schedule_revision_check-IsWaiting p deadline env t h)

  start-IsWaiting : IsWaiting p deadline s → IsWaiting p deadline (start env s)
  unfolding start
  start-IsWaiting h =
      if-holds (IsWaiting p deadline) s.started _ _ (λ on. h)
        (λ off. schedule_revision_check-IsWaiting p deadline env _ (
          request_immediate-IsWaiting deadline env _ early p startup chosen
            (activate-IsWaiting p deadline env (record s { started = true }) h env.selected)))

  reading-IsWaiting :
      (interactive : Bool)
      → IsWaiting p deadline s
      → IsWaiting p deadline (reading_activity env.in_background interactive env s)
  reading-IsWaiting interactive h =
      if-holds (IsWaiting p deadline) env.in_background _ _
        (λ hidden. request_immediate-IsWaiting deadline env s early p background chosen h)
        (λ shown.
          if-holds (IsWaiting p deadline) interactive _ _
            (λ quick.
              request_quiet-IsWaiting deadline env s early p s.interactive_quiet_interval_ms chosen
                h)
            (λ slow. request_quiet-IsWaiting deadline env s early p s.quiet_interval_ms chosen h))

  on_activity-IsWaiting :
      (kind : SyncActivityKind)
      → IsWaiting p deadline s
      → IsWaiting p deadline (on_activity kind env s)
  unfolding on_activity
  on_activity-IsWaiting book h =
      request_immediate-IsWaiting deadline env s early p book_change chosen h
  on_activity-IsWaiting annotation h = reading-IsWaiting true h
  on_activity-IsWaiting bookmark h = reading-IsWaiting true h
  on_activity-IsWaiting progress h = reading-IsWaiting false h
  on_activity-IsWaiting preference h = reading-IsWaiting false h
  on_activity-IsWaiting logical_book_change h = reading-IsWaiting false h

  on_online-IsWaiting : IsWaiting p deadline s → IsWaiting p deadline (on_online env s)
  unfolding on_online
  on_online-IsWaiting h =
      schedule_revision_check-IsWaiting p deadline env _
        (request_immediate-IsWaiting deadline env _ early p _ chosen h)

  on_visibility_change-IsWaiting :
      IsWaiting p deadline s → IsWaiting p deadline (on_visibility_change env s)
  unfolding on_visibility_change
  on_visibility_change-IsWaiting h =
      if-holds (IsWaiting p deadline) env.in_background _ _ (λ hidden. h)
        (λ shown. schedule_revision_check-IsWaiting p deadline env _ (by_provider env.selected))
    where
      by_provider : (o : Option SyncProviderKind) → IsWaiting p deadline (check_git o env s)
      by_provider none = h
      by_provider (some git) =
          request_immediate-IsWaiting deadline env s early p revision_check chosen h
      by_provider (some mega) = h

  subscribed_only-IsWaiting :
      (f : AutoSyncScheduler → AutoSyncScheduler)
      → IsWaiting p deadline s
      → IsWaiting p deadline (f s)
      → IsWaiting p deadline (subscribed_only f s)
  subscribed_only-IsWaiting f h after =
      if-holds (IsWaiting p deadline) s.subscribed _ _ (λ on. after) (λ off. h)

  request-IsWaiting :
      (reason : AutoSyncReason)
      → IsWaiting p deadline s
      → IsWaiting p deadline (request_immediate reason env s)
  request-IsWaiting reason h = request_immediate-IsWaiting deadline env s early p reason chosen h

  step-IsWaiting :
      (event : Event)
      → may_happen event env.now s.timer ≡ true
      → IsWaiting p deadline s
      → IsWaiting p deadline (step event env s)
  unfolding step
  step-IsWaiting started due h = start-IsWaiting h
  step-IsWaiting stopped due h = stop-IsWaiting p deadline env s h
  step-IsWaiting (requested reading_quiet) due h = h
  step-IsWaiting (requested startup) due h = request-IsWaiting startup h
  step-IsWaiting (requested book_change) due h = request-IsWaiting book_change h
  step-IsWaiting (requested background) due h = request-IsWaiting background h
  step-IsWaiting (requested went_online) due h = request-IsWaiting went_online h
  step-IsWaiting (requested destination_selected) due h = request-IsWaiting destination_selected h
  step-IsWaiting (requested revision_check) due h = request-IsWaiting revision_check h
  step-IsWaiting (requested_quiet delay) due h =
      request_quiet-IsWaiting deadline env s early p delay chosen h
  step-IsWaiting (activity kind) due h =
      subscribed_only-IsWaiting (on_activity kind env) h (on_activity-IsWaiting kind h)
  step-IsWaiting online_again due h =
      subscribed_only-IsWaiting (on_online env) h (on_online-IsWaiting h)
  step-IsWaiting offline_now due h =
      subscribed_only-IsWaiting (on_offline env) h (on_offline-IsWaiting p deadline env s h)
  step-IsWaiting visibility_changed due h =
      subscribed_only-IsWaiting (on_visibility_change env) h (on_visibility_change-IsWaiting h)
  step-IsWaiting selection_changed due h =
      subscribed_only-IsWaiting (schedule_revision_check env) h
        (schedule_revision_check-IsWaiting p deadline env s h)
  step-IsWaiting pass_timer due h = timer_fired-IsWaiting p deadline env s h early s.timer refl due
  step-IsWaiting revision_timer due h =
      if-holds (IsWaiting p deadline) (is_some s.revision_check_timer) _ _
        (λ set. revision_timer_fired-IsWaiting h) (λ unset. h)
  step-IsWaiting (progressed amount) due h = transfer_progressed-IsWaiting p deadline env s h amount
  step-IsWaiting (settled outcome) due h = settle_late-IsWaiting p deadline env s h outcome
  step-IsWaiting cancel_requested due h = cancel_active-IsWaiting p deadline env s h
  step-IsWaiting (manual_success result) due h = record_manual_success-IsWaiting result h
  step-IsWaiting (history_cleared q) due h = clear_history-IsWaiting p deadline env s h q
  step-IsWaiting status_read due h = activate-IsWaiting p deadline env s h env.selected

-- From that time on the clock does not go back, the provider stays selected, and the timer fires when
-- it is due.
abbrev pub IsTimely : SyncProviderKind → ℕ → AutoSyncScheduler → List (Event × Environment) → Type 0
IsTimely p time s [] = Unit
IsTimely p time s ((event, env) ∷ events) =
    (time ≤ env.now)
    × ((env.selected ≡ some p)
        × ((may_happen event env.now s.timer ≡ true)
            × IsTimely p env.now (step event env s) events))

abbrev pub last_time : ℕ → List (Event × Environment) → ℕ
last_time time [] = time
last_time time ((event, env) ∷ events) = last_time env.now events

last_time-grows :
    (p : SyncProviderKind) (time : ℕ) (s : AutoSyncScheduler) (events : List (Event × Environment))
    → IsTimely p time s events
    → time ≤ last_time time events
last_time-grows p time s [] timely = omega arith
last_time-grows p time s ((event, env) ∷ events) timely =
    let rest = last_time-grows p env.now (step event env s) events timely.1.1.1 in
    let first = timely.0 in omega (arith, rest, first)

run-IsWaiting :
    (p : SyncProviderKind) (deadline time : ℕ) (s : AutoSyncScheduler)
    (events : List (Event × Environment))
    → IsTimely p time s events
    → last_time time events < deadline
    → IsWaiting p deadline s
    → IsWaiting p deadline (run events s)
unfolding run
run-IsWaiting p deadline time s [] timely early h = h
run-IsWaiting p deadline time s ((event, env) ∷ events) timely early h =
    let grows = last_time-grows p env.now (step event env s) events timely.1.1.1 in
    let soon : env.now < deadline = omega (arith, grows, early) in
    run-IsWaiting p deadline env.now (step event env s) events timely.1.1.1 early
      (step-IsWaiting p deadline env s soon timely.1.0 event timely.1.1.0 h)

-- After a pass that was not aborted and met a rate limit, a started scheduler makes no pass before
-- the limit ends: whatever events follow while the provider of the pass stays selected, the clock
-- does not go back and the timer does not fire early, as long as the last of them is before the end
-- of the limit no pass is in flight, the end is kept for the provider, and the timer, if it is set, is
-- not due before it.
pub settle_limited-waits :
    (pass : ActivePass) (error : SyncError) (seconds : ℕ) (env : Environment)
    (s : AutoSyncScheduler) (events : List (Event × Environment))
    → s.active ≡ some pass
    → s.started ≡ true
    → pass.aborted ≡ false
    → provider_retry_after_seconds error ≡ some seconds
    → IsTimely pass.provider env.now (settle (rejected error) env s) events
    → last_time env.now events < env.now + seconds * 1000
    → IsWaiting pass.provider
        (env.now + seconds * 1000)
        (run events (settle (rejected error) env s))
settle_limited-waits pass error seconds env s events e on live limited timely early =
    run-IsWaiting pass.provider (env.now + seconds * 1000) env.now (settle (rejected error) env s)
      events timely early (settle-IsWaiting pass error seconds env s e on live limited)
