-- ===== src/AutoSync/Lifecycle.antt =====
-- Starting and stopping, the callbacks that `start` registers, and the scheduler as a machine over
-- the events of its environment.
use omnia_reader.Prelude.{
  ℕ, Bool, true, false, not, Option, none, some, List, [], ◌∷◌, is_some, ◌&&◌, ◌||◌, or_else, ltb,
  if◌then◌else◌,
}
use omnia_reader.AutoSync.State.{
  SyncProviderKind, git, AutoSyncReason, startup, book_change, reading_quiet, background,
  went_online, revision_check, automatic, AutoSyncStatusReason, AutoSyncScheduler, Stores,
  Environment, idle, offline, SyncActivityKind, book, bookmark, annotation, SyncWorkerResult,
  ActivePass, merge_reasons,
}
use omnia_reader.AutoSync.Backoff.{activate_history}
use omnia_reader.AutoSync.Requests.{request_immediate, request_quiet, schedule_revision_check}
use omnia_reader.AutoSync.Passes.{
  Outcome, timer_fired, settle, transfer_progressed, cancel_active, record_manual_success,
  clear_history, revision_timer_fired,
}

-- `AutoSyncSchedulerOptions`, less the environment and the stores
pub record AutoSyncSchedulerOptions : Type 0 where
  pub quiet_interval : Option ℕ
  pub interactive_quiet_interval : Option ℕ
  pub revision_check_interval : Option ℕ

-- `status` and `subscribe`, less the value and the listener
abbrev pub activate : Option SyncProviderKind → AutoSyncScheduler → AutoSyncScheduler
activate none s = s
activate (some p) s = activate_history p s

abbrev pub fresh : AutoSyncSchedulerOptions → Stores → AutoSyncScheduler
fresh options stores = record {
  quiet_interval_ms = or_else options.quiet_interval 750;
  interactive_quiet_interval_ms = or_else options.interactive_quiet_interval 50;
  revision_check_interval_ms = or_else options.revision_check_interval 10000;
  stores = stores;
  provider_retry_after_at = record { for_git = none; for_mega = none };
  loaded_provider_retry_after = record { for_git = false; for_mega = false };
  history_provider = none;
  status = record {
    phase = idle;
    reason = none;
    scheduled_for = none;
    last_attempt_at = none;
    last_success_at = none;
    last_result = none;
    transfer_progress = none;
    error_message = none;
  };
  started = false;
  subscribed = false;
  timer = none;
  revision_check_timer = none;
  scheduled_reason = none;
  queued_reason = none;
  queued_quiet_until = none;
  active = none;
}

-- The constructor; `none` stands for the TypeError.
unfoldable pub create :
    AutoSyncSchedulerOptions → Stores → Option SyncProviderKind → Option AutoSyncScheduler
create options stores selected =
    let s = fresh options stores in
    if ltb s.revision_check_interval_ms 5000 || ltb 300000 s.revision_check_interval_ms
    then none
    else some (activate selected s)

-- `request_immediate` does nothing without a provider, as the source's own test of it.
unfoldable pub start : Environment → AutoSyncScheduler → AutoSyncScheduler
start env s =
    if s.started
    then s
    else schedule_revision_check env (
        request_immediate startup env
          (record (activate env.selected (record s { started = true })) { subscribed = true }))

abbrev abort : Option ActivePass → Option ActivePass
abort none = none
abort (some pass) = some (record pass { aborted = true })

unfoldable pub stop : AutoSyncScheduler → AutoSyncScheduler
stop s = if not s.started then s else record s {
  started = false;
  subscribed = false;
  timer = none;
  scheduled_reason = none;
  revision_check_timer = none;
  queued_reason = none;
  queued_quiet_until = none;
  active = abort s.active;
  status = record (s.status) {
    phase = idle;
    reason = none;
    scheduled_for = none;
    transfer_progress = none;
    error_message = none;
  };
}

-- The callback of `activity.subscribe`, for a change that is no book.
abbrev pub reading_activity : Bool → Bool → Environment → AutoSyncScheduler → AutoSyncScheduler
reading_activity hidden interactive env s =
    if hidden
    then request_immediate background env s
    else if interactive
    then request_quiet s.interactive_quiet_interval_ms env s
    else request_quiet s.quiet_interval_ms env s

unfoldable pub on_activity : SyncActivityKind → Environment → AutoSyncScheduler → AutoSyncScheduler
on_activity book env s = request_immediate book_change env s
on_activity annotation env s = reading_activity env.in_background true env s
on_activity bookmark env s = reading_activity env.in_background true env s
on_activity _ env s = reading_activity env.in_background false env s

-- `queuedReason && queuedReason !== 'reading-quiet' ? queuedReason : 'online'`
abbrev pub online_reason : Option AutoSyncReason → AutoSyncReason
online_reason none = went_online
online_reason (some reading_quiet) = went_online
online_reason (some reason) = reason

unfoldable pub on_online : Environment → AutoSyncScheduler → AutoSyncScheduler
on_online env s =
    schedule_revision_check env
      (request_immediate (online_reason s.queued_reason) env (record s { queued_reason = none }))

abbrev enqueue_scheduled : Option AutoSyncReason → Option AutoSyncReason → Option AutoSyncReason
enqueue_scheduled none queued = queued
enqueue_scheduled (some scheduled) queued = some (merge_reasons queued scheduled)

abbrev status_reason : Option AutoSyncReason → Option AutoSyncStatusReason
status_reason none = none
status_reason (some reason) = some (automatic reason)

abbrev suspend : Option AutoSyncReason → AutoSyncScheduler → AutoSyncScheduler
suspend queued s = record s {
  queued_reason = queued;
  timer = none;
  scheduled_reason = none;
  status = record (s.status) {
    phase = offline;
    reason = status_reason queued;
    scheduled_for = none;
    transfer_progress = none;
  };
}

unfoldable pub handle_offline : Environment → AutoSyncScheduler → AutoSyncScheduler
handle_offline env s =
    if s.started && is_some env.selected
    then suspend (enqueue_scheduled s.scheduled_reason s.queued_reason) s
    else s

unfoldable pub on_offline : Environment → AutoSyncScheduler → AutoSyncScheduler
on_offline env s = handle_offline env (record s { revision_check_timer = none })

abbrev pub check_git : Option SyncProviderKind → Environment → AutoSyncScheduler → AutoSyncScheduler
check_git (some git) env s = request_immediate revision_check env s
check_git _ env s = s

unfoldable pub on_visibility_change : Environment → AutoSyncScheduler → AutoSyncScheduler
on_visibility_change env s =
    if env.in_background
    then record s { revision_check_timer = none }
    else schedule_revision_check env (check_git env.selected env s)

pub data Event : Type 0 where
  started stopped : Event
  requested : AutoSyncReason → Event
  requested_quiet : ℕ → Event
  activity : SyncActivityKind → Event
  online_again offline_now visibility_changed selection_changed : Event
  pass_timer revision_timer : Event
  progressed : ℕ → Event
  settled : Outcome → Event
  cancel_requested : Event
  manual_success : SyncWorkerResult → Event
  history_cleared : SyncProviderKind → Event
  status_read : Event

-- A callback of the environment runs only while it is registered.
abbrev pub subscribed_only :
    (AutoSyncScheduler → AutoSyncScheduler) → AutoSyncScheduler → AutoSyncScheduler
subscribed_only f s = if s.subscribed then f s else s

unfoldable pub step : Event → Environment → AutoSyncScheduler → AutoSyncScheduler
step started env s = start env s
step stopped env s = stop s
step (requested reading_quiet) env s = s
step (requested reason) env s = request_immediate reason env s
step (requested_quiet delay) env s = request_quiet delay env s
step (activity kind) env s = subscribed_only (on_activity kind env) s
step online_again env s = subscribed_only (on_online env) s
step offline_now env s = subscribed_only (on_offline env) s
step visibility_changed env s = subscribed_only (on_visibility_change env) s
step selection_changed env s = subscribed_only (schedule_revision_check env) s
step pass_timer env s = timer_fired env s
step revision_timer env s = if is_some s.revision_check_timer then revision_timer_fired env s else s
step (progressed amount) env s = transfer_progressed amount s
step (settled outcome) env s = settle outcome env s
step cancel_requested env s = (cancel_active s).1
step (manual_success result) env s = record_manual_success result env s
step (history_cleared p) env s = clear_history p s
step status_read env s = activate env.selected s

-- Each event with the environment that it finds.
unfoldable pub run : List (Event × Environment) → AutoSyncScheduler → AutoSyncScheduler
run [] s = s
run ((event, env) ∷ events) s = run events (step event env s)
