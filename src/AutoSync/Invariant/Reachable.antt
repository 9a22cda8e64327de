-- ===== src/AutoSync/Invariant/Reachable.antt =====
-- The invariant of the scheduler under every sequence of events.
use omnia_reader.Prelude.{
  ℕ, not, ◌≡◌, refl, true, Option, none, some, List, [], ◌∷◌, is_some, arith, if-holds,
}
use omnia_reader.AutoSync.State.{
  SyncProviderKind, git, mega, reading_quiet, startup, background, book_change, revision_check,
  Stores, AutoSyncScheduler, Environment, ActivePass, SyncActivityKind, book,
}
use omnia_reader.AutoSync.Backoff.{activate_history, provider_retry_after_seconds}
use omnia_reader.AutoSync.Requests.{schedule_revision_check}
use omnia_reader.AutoSync.Passes.{
  Outcome, fulfilled, rejected, settle, settle_pass, settle_outcome, settle_rejected, cancel_active,
  revision_timer_fired,
}
use omnia_reader.AutoSync.Lifecycle.{
  AutoSyncSchedulerOptions, create, subscribed_only, Event, started, stopped, requested,
  requested_quiet, activity, online_again, offline_now, visibility_changed, selection_changed,
  pass_timer, revision_timer, progressed, settled, cancel_requested, manual_success,
  history_cleared, step, run, start, on_activity, on_online, on_offline, on_visibility_change,
  check_git, activate, status_read,
}
use omnia_reader.AutoSync.Invariant.{
  IsSound, request_immediate-IsSound, request_quiet-IsSound, schedule_revision_check-IsSound,
  begin_history-IsSound, timer_fired-IsSound, cancel_pass-IsSound, transfer_progressed-IsSound,
  clear_history-IsSound, record_manual_success-IsSound, handle_offline-IsSound, stop-IsSound,
  begin_start-IsSound, drop_revision-IsSound, drop_queue-IsSound, settle_fulfilled-IsSound,
  settle_failed-IsSound, settle_limited-IsSound,
}

settle_outcome-IsSound :
    (pass : ActivePass) (outcome : Outcome) (env : Environment) (s : AutoSyncScheduler)
    → s.active ≡ some pass
    → IsSound s
    → s.started ≡ true
    → IsSound (settle_outcome pass outcome env s)
settle_outcome-IsSound pass (fulfilled result) env s e h on =
    settle_fulfilled-IsSound pass result env s e h on
settle_outcome-IsSound pass (rejected error) env s e h on =
    limited (provider_retry_after_seconds error)
  where
    limited : (o : Option ℕ) → IsSound (settle_rejected pass error o env s)
    limited none = settle_failed-IsSound pass error env s e h on
    limited (some seconds) = settle_limited-IsSound pass seconds env s e h on

settle-IsSound :
    (outcome : Outcome) (env : Environment) (s : AutoSyncScheduler)
    → IsSound s
    → IsSound (settle outcome env s)
unfolding settle settle_pass
settle-IsSound outcome env s h = by_pass s.active refl
  where
    by_pass : (o : Option ActivePass) → s.active ≡ o → IsSound (settle_pass o outcome env s)
    by_pass none e = h
    by_pass (some pass) e =
        if-holds IsSound (not s.started) _ _ (λ off. ground arith)
          (λ on.
            if-holds IsSound pass.aborted _ _ (λ gone. ground arith)
              (λ live. settle_outcome-IsSound pass outcome env s e h (ground arith)))

module _ (env : Environment) (s : AutoSyncScheduler) where
  revision_timer_fired-IsSound : IsSound s → IsSound (revision_timer_fired env s)
  unfolding revision_timer_fired
  revision_timer_fired-IsSound h =
      let t = drop_revision-IsSound env s h in
      ground (
        arith,
        schedule_revision_check-IsSound env _ t,
        schedule_revision_check-IsSound env _ (request_immediate-IsSound env _ revision_check t),
      )

  activity-IsSound : (kind : SyncActivityKind) → IsSound s → IsSound (on_activity kind env s)
  unfolding on_activity
  activity-IsSound book h = request_immediate-IsSound env s book_change h
  activity-IsSound kind h = ground (
    arith,
    request_immediate-IsSound env s background h,
    request_quiet-IsSound env s s.quiet_interval_ms h,
    request_quiet-IsSound env s s.interactive_quiet_interval_ms h,
  )

  on_online-IsSound : IsSound s → IsSound (on_online env s)
  unfolding on_online
  on_online-IsSound h =
      schedule_revision_check-IsSound env _
        (request_immediate-IsSound env _ _ (drop_queue-IsSound env s h))

  on_offline-IsSound : IsSound s → IsSound (on_offline env s)
  unfolding on_offline
  on_offline-IsSound h = handle_offline-IsSound env _ (drop_revision-IsSound env s h)

  check_git-IsSound : (p : Option SyncProviderKind) → IsSound s → IsSound (check_git p env s)
  check_git-IsSound none h = h
  check_git-IsSound (some git) h = request_immediate-IsSound env s revision_check h
  check_git-IsSound (some mega) h = h

  on_visibility_change-IsSound : IsSound s → IsSound (on_visibility_change env s)
  unfolding on_visibility_change
  on_visibility_change-IsSound h =
      if-holds IsSound env.in_background _ _ (λ hidden. drop_revision-IsSound env s h)
        (λ shown. schedule_revision_check-IsSound env _ (check_git-IsSound env.selected h))

  activate-IsSound : (p : Option SyncProviderKind) → IsSound s → IsSound (activate p s)
  activate-IsSound none h = h
  activate-IsSound (some p) h = begin_history-IsSound env s p h

  start-IsSound : IsSound s → IsSound (start env s)
  unfolding start
  start-IsSound h =
      if-holds IsSound s.started _ _ (λ on. h)
        (λ off.
          schedule_revision_check-IsSound env _
            (request_immediate-IsSound env _ startup (begin_start-IsSound env s off h)))

  cancel_active-IsSound : IsSound s → IsSound (cancel_active s).1
  unfolding cancel_active
  cancel_active-IsSound h = cancel_pass-IsSound env s h

  while_subscribed :
      (f : AutoSyncScheduler → AutoSyncScheduler)
      → IsSound s
      → IsSound (f s)
      → IsSound (subscribed_only f s)
  while_subscribed f h k = if-holds IsSound s.subscribed _ _ (λ on. k) (λ off. h)

-- Every event keeps the invariant of the scheduler.
pub step-IsSound :
    (event : Event) (env : Environment) (s : AutoSyncScheduler)
    → IsSound s
    → IsSound (step event env s)
unfolding step
step-IsSound started env s h = start-IsSound env s h
step-IsSound stopped env s h = stop-IsSound env s h
step-IsSound (requested reading_quiet) env s h = h
step-IsSound (requested reason) env s h = request_immediate-IsSound env s reason h
step-IsSound (requested_quiet delay) env s h = request_quiet-IsSound env s delay h
step-IsSound (activity kind) env s h =
    while_subscribed env s (on_activity kind env) h (activity-IsSound env s kind h)
step-IsSound online_again env s h =
    while_subscribed env s (on_online env) h (on_online-IsSound env s h)
step-IsSound offline_now env s h =
    while_subscribed env s (on_offline env) h (on_offline-IsSound env s h)
step-IsSound visibility_changed env s h =
    while_subscribed env s (on_visibility_change env) h (on_visibility_change-IsSound env s h)
step-IsSound selection_changed env s h =
    while_subscribed env s (schedule_revision_check env) h (schedule_revision_check-IsSound env s h)
step-IsSound pass_timer env s h = timer_fired-IsSound env s h
step-IsSound revision_timer env s h =
    if-holds IsSound (is_some s.revision_check_timer) _ _
      (λ set. revision_timer_fired-IsSound env s h) (λ unset. h)
step-IsSound (progressed amount) env s h = transfer_progressed-IsSound env s amount h
step-IsSound (settled outcome) env s h = settle-IsSound outcome env s h
step-IsSound cancel_requested env s h = cancel_active-IsSound env s h
step-IsSound (manual_success result) env s h = record_manual_success-IsSound env s result h
step-IsSound (history_cleared p) env s h = clear_history-IsSound env s p h
step-IsSound status_read env s h = activate-IsSound env s env.selected h

create-IsSound :
    (options : AutoSyncSchedulerOptions) (stores : Stores) (selected : Option SyncProviderKind)
    (s : AutoSyncScheduler)
    → create options stores selected ≡ some s
    → IsSound s
unfolding create activate_history
create-IsSound options stores selected s e = ground arith

run-IsSound :
    (events : List (Event × Environment)) (s : AutoSyncScheduler)
    → IsSound s
    → IsSound (run events s)
unfolding run
run-IsSound [] s h = h
run-IsSound ((event, env) ∷ events) s h = run-IsSound events _ (step-IsSound event env s h)

-- Whatever events a new scheduler sees, each with the environment that it finds, the invariant
-- holds afterwards: a timer is set exactly for the scheduled reason, no timer is set while a pass
-- is in flight, and a stopped scheduler is idle with no timer, no queue and no subscription.
pub reachable-IsSound :
    (options : AutoSyncSchedulerOptions) (stores : Stores) (selected : Option SyncProviderKind)
    (s : AutoSyncScheduler) (events : List (Event × Environment))
    → create options stores selected ≡ some s
    → IsSound (run events s)
reachable-IsSound options stores selected s events e =
    run-IsSound events s (create-IsSound options stores selected s e)
