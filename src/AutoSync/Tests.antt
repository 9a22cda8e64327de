-- ===== src/AutoSync/Tests.antt =====
-- A scheduler that synchronizes with Git, at concrete moments.
use omnia_reader.Prelude.{ℕ, ◌≤◌, ◌≡◌, refl, true, false, none, some, List, [], ◌∷◌, arith}
use omnia_reader.AutoSync.State.{
  SyncWorkerResult, git, startup, book_change, revision_check, AutoSyncScheduler, Environment,
  ActivePass, Stores, bookmark,
}
use omnia_reader.AutoSync.Backoff.{
  activate_history, SyncError, provider_retry_after_seconds, read_provider_retry_delay,
  load_provider_retry_after, delay_until,
}
use omnia_reader.AutoSync.Requests.{request_immediate, request_for, schedule}
use omnia_reader.AutoSync.Passes.{fulfilled, rejected, settle}
use omnia_reader.AutoSync.Lifecycle.{
  AutoSyncSchedulerOptions, activate, fresh, create, start, stop, Event, started, stopped, activity,
  pass_timer, settled, offline_now, online_again, run, requested, revision_timer,
}
use omnia_reader.AutoSync.Limit.{settle_limited-waits}
use omnia_reader.AutoSync.Limit.Operations.{IsWaiting}
use omnia_reader.AutoSync.Invariant.{IsSound}
use omnia_reader.AutoSync.Invariant.Reachable.{reachable-IsSound}
use omnia_reader.AutoSync.Release.{settle-scheduled}
use omnia_reader.AutoSync.Wakeups.{
  IsForgotten, request_immediate_kept, request_immediate-waits, restart-loses_startup,
}

abbrev defaults : AutoSyncSchedulerOptions
defaults = record {
  quiet_interval = none;
  interactive_quiet_interval = none;
  revision_check_interval = none;
}

abbrev empty_stores : Stores
empty_stores = record {
  available = true;
  retry_after = record { for_git = none; for_mega = none };
  history = record { for_git = none; for_mega = none };
}

abbrev at_time : ℕ → Environment
at_time now = record { now = now; online = true; in_background = false; selected = some git }

abbrev new_scheduler : AutoSyncScheduler
new_scheduler = activate (some git) (fresh defaults empty_stores)

abbrev limit : SyncError
limit = record { http_status = some 429; retry_after_seconds = some 30; message = none }

-- A pass runs, a bookmark is set meanwhile, and the provider asks to wait.
abbrev busy_morning : List (Event × Environment)
busy_morning =
    (started, at_time 1000)
    ∷ (pass_timer, at_time 1000)
    ∷ (activity bookmark, at_time 1500)
    ∷ (settled (rejected limit), at_time 2000)
    ∷ (offline_now, at_time 2500)
    ∷ (online_again, at_time 3000)
    ∷ (stopped, at_time 4000)
    ∷ []

reachable-IsSound_example : IsSound (run busy_morning new_scheduler)
unfolding create activate_history
reachable-IsSound_example =
    reachable-IsSound defaults empty_stores (some git) new_scheduler busy_morning refl

abbrev running : AutoSyncScheduler
running = record (fresh defaults empty_stores) { started = true; subscribed = true }

abbrev startup_pass : ActivePass
startup_pass = record { provider = git; for_reason = startup; aborted = false }

abbrev in_flight : AutoSyncScheduler
in_flight = record running { active = some startup_pass; queued_reason = some book_change }

abbrev limited : AutoSyncScheduler
limited = record running {
  provider_retry_after_at = record { for_git = some 9000; for_mega = none };
  loaded_provider_retry_after = record { for_git = true; for_mega = false };
}

request_immediate_kept_example :
    (request_immediate revision_check (at_time 5000) in_flight).queued_reason ≡ some book_change
request_immediate_kept_example =
    request_immediate_kept revision_check (at_time 5000) in_flight refl refl

abbrev nothing_new : SyncWorkerResult
nothing_new = record {
  pulled = 0;
  pushed = 0;
  conflicts = 0;
  rejected = 0;
  unchanged = true;
  maintenance_pending = false;
}

settle-scheduled_example :
    (settle (fulfilled nothing_new) (at_time 5000) in_flight).scheduled_reason ≡ some book_change
settle-scheduled_example =
    settle-scheduled startup_pass (fulfilled nothing_new) book_change (at_time 5000) in_flight refl
      refl refl refl refl refl refl refl

request_immediate-waits_example : 9000 ≤ 9000
unfolding request_immediate request_for schedule activate_history read_provider_retry_delay
    load_provider_retry_after delay_until
request_immediate-waits_example =
    request_immediate-waits book_change git (at_time 5000) limited 9000
      (record { due = 9000; for_reason = book_change }) refl refl refl refl refl refl refl

-- While the limit lasts a book changes, the host goes offline and comes back.
abbrev limited_morning : List (Event × Environment)
limited_morning =
    (requested book_change, at_time 2500)
    ∷ (offline_now, at_time 3000)
    ∷ (online_again, at_time 4000)
    ∷ (revision_timer, at_time 14000)
    ∷ (stopped, at_time 15000)
    ∷ (started, at_time 16000)
    ∷ []

settle_limited-waits_example :
    IsWaiting git 32000 (run limited_morning (settle (rejected limit) (at_time 2000) in_flight))
unfolding provider_retry_after_seconds
settle_limited-waits_example =
    settle_limited-waits startup_pass limit 30 (at_time 2000) in_flight limited_morning refl refl
      refl refl (ground arith) (omega arith)

restart-loses_startup_example :
    IsForgotten (settle (rejected limit) (at_time 3000) (start (at_time 2500) (stop in_flight)))
restart-loses_startup_example =
    restart-loses_startup (rejected limit) (at_time 2500) (at_time 3000) in_flight refl refl
