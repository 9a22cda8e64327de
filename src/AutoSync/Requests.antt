-- ===== src/AutoSync/Requests.antt =====
-- Requests for a pass, and the timers that they set.
use omnia_reader.Prelude.{
  ℕ, ◌+◌, Bool, true, false, not, Option, none, some, ltb, is_some, ◌&&◌, max, if◌then◌else◌,
}
use omnia_reader.AutoSync.State.{
  SyncProviderKind, git, mega, AutoSyncReason, reading_quiet, automatic, AutoSyncScheduler,
  Environment, StatusMessage, provider_rate_limit, offline, scheduled, merge_reasons, is_quiet,
  maintenance_is_pending,
}
use omnia_reader.AutoSync.Backoff.{activate_history, read_provider_retry_delay}

unfoldable pub schedule :
    AutoSyncReason → ℕ → Option StatusMessage → ℕ → AutoSyncScheduler → AutoSyncScheduler
schedule reason delay message now s = record s {
  timer = some (record { due = now + delay; for_reason = reason });
  scheduled_reason = some reason;
  status = record (s.status) {
    phase = scheduled;
    reason = some (automatic reason);
    scheduled_for = some (now + delay);
    transfer_progress = none;
    error_message = message;
  };
}

-- `this.queuedReason = mergeReasons(this.queuedReason, reason)`
abbrev pub enqueue : AutoSyncReason → AutoSyncScheduler → AutoSyncScheduler
enqueue reason s = record s { queued_reason = some (merge_reasons s.queued_reason reason) }

-- The branch of a request that finds the host offline.
abbrev pub wait_for_network : AutoSyncReason → AutoSyncScheduler → AutoSyncScheduler
wait_for_network reason s = record s {
  queued_reason = some (merge_reasons s.queued_reason reason);
  timer = none;
  scheduled_reason = none;
  status = record (s.status) {
    phase = offline;
    reason = some (automatic reason);
    transfer_progress = none;
  };
}

abbrev limit_message : ℕ → Option StatusMessage
limit_message delay = if ltb 0 delay then some provider_rate_limit else none

-- The end of `requestImmediate`, for an online host with no pass in flight.
abbrev pub schedule_immediate :
    AutoSyncReason → SyncProviderKind → ℕ → AutoSyncScheduler → AutoSyncScheduler
schedule_immediate reason p now s =
    let (delay, t) = read_provider_retry_delay p now s in
    schedule reason delay (limit_message delay) now t

unfoldable pub request_for :
    Option SyncProviderKind → AutoSyncReason → Environment → AutoSyncScheduler → AutoSyncScheduler
unfolding activate_history read_provider_retry_delay schedule
request_for none reason env s = s
request_for (some p) reason env s =
    let t = activate_history p s in
    if not s.started
    then s
    else if not env.online
    then wait_for_network reason t
    else if is_some t.active
    then enqueue reason t
    else schedule_immediate reason p env.now t

-- The reason is any but `reading-quiet`.
unfoldable pub request_immediate :
    AutoSyncReason → Environment → AutoSyncScheduler → AutoSyncScheduler
unfolding request_for
request_immediate reason env s = request_for env.selected reason env s

-- `this.scheduledReason && this.scheduledReason !== 'reading-quiet'`
abbrev pub is_pressing : Option AutoSyncReason → Bool
is_pressing none = false
is_pressing (some reason) = not (is_quiet reason)

abbrev pub schedule_quiet : ℕ → SyncProviderKind → ℕ → AutoSyncScheduler → AutoSyncScheduler
schedule_quiet delay p now s =
    let (retry_delay, t) = read_provider_retry_delay p now s in
    schedule reading_quiet (max delay retry_delay) (limit_message retry_delay) now t

unfoldable pub request_quiet_for :
    Option SyncProviderKind → ℕ → Environment → AutoSyncScheduler → AutoSyncScheduler
unfolding activate_history read_provider_retry_delay schedule
request_quiet_for none delay env s = s
request_quiet_for (some p) delay env s =
    let t = activate_history p s in
    if not s.started
    then s
    else if not env.online
    then wait_for_network reading_quiet t
    else if is_some t.active
    then record (enqueue reading_quiet t) { queued_quiet_until = some (env.now + delay) }
    else if is_pressing t.scheduled_reason
    then t
    else schedule_quiet delay p env.now t

unfoldable pub request_quiet : ℕ → Environment → AutoSyncScheduler → AutoSyncScheduler
unfolding request_quiet_for
request_quiet delay env s = request_quiet_for env.selected delay env s

abbrev polls : Option SyncProviderKind → AutoSyncScheduler → Bool
polls none s = false
polls (some git) s = true
polls (some mega) s = maintenance_is_pending s.status.last_result

unfoldable pub revision_polling_enabled : Environment → AutoSyncScheduler → Bool
revision_polling_enabled env s =
    s.started && (polls env.selected s && (env.online && not env.in_background))

unfoldable pub schedule_revision_check : Environment → AutoSyncScheduler → AutoSyncScheduler
unfolding revision_polling_enabled
schedule_revision_check env s =
    if revision_polling_enabled env s
    then record s { revision_check_timer = some (env.now + s.revision_check_interval_ms) }
    else record s { revision_check_timer = none }
