-- ===== src/AutoSync/Wakeups.antt =====
-- Requests of the scheduler are kept until a pass serves them, and wait for a known deadline.
use omnia_reader.Prelude.{
  ℕ, ◌≤◌, ◌≡◌, true, false, not, Option, none, some, is_some, Bool, ◌&&◌, if◌then◌else◌, arith,
  if-holds,
}
use omnia_reader.AutoSync.State.{
  SyncProviderKind, git, mega, AutoSyncReason, startup, AutoSyncScheduler, Environment, PassTimer,
  ActivePass, at_provider, merge_reasons,
}
use omnia_reader.AutoSync.Backoff.{
  activate_history, read_provider_retry_delay, delay_until, load_provider_retry_after,
  clear_provider_retry_after, SyncError, provider_retry_after_seconds,
}
use omnia_reader.AutoSync.Requests.{
  schedule, request_for, request_immediate, schedule_revision_check,
}
use omnia_reader.AutoSync.Passes.{Outcome, settle, settle_pass, settle_outcome}
use omnia_reader.AutoSync.Lifecycle.{activate, start, stop}
use omnia_reader.AutoSync.Invariant.{is_aborted}

-- Whether a request can set a timer now.
abbrev pub is_free : Environment → AutoSyncScheduler → Bool
is_free env s = env.online && not (is_some s.active)

activate_history-queued_reason :
    (p : SyncProviderKind) (s : AutoSyncScheduler)
    → (activate_history p s).queued_reason ≡ s.queued_reason
unfolding activate_history
activate_history-queued_reason p s = ground arith

activate_history-active :
    (p : SyncProviderKind) (s : AutoSyncScheduler) → (activate_history p s).active ≡ s.active
unfolding activate_history
activate_history-active p s = ground arith

-- A request of a started scheduler that has a provider is not lost: it is the scheduled reason
-- when the host is online and no pass is in flight, and else it is merged into the queue.
pub request_immediate_kept :
    (reason : AutoSyncReason) (env : Environment) (s : AutoSyncScheduler)
    → s.started ≡ true
    → is_some env.selected ≡ true
    → (if is_free env s
        then (request_immediate reason env s).scheduled_reason
        else (request_immediate reason env s).queued_reason)
      ≡ some (if is_free env s then reason else merge_reasons s.queued_reason reason)
unfolding request_immediate request_for schedule
request_immediate_kept reason env s on chosen = by_provider env.selected chosen
  where
    IsKept : AutoSyncScheduler → Type 0
    IsKept t =
        (if is_free env s then t.scheduled_reason else t.queued_reason)
        ≡ some (if is_free env s then reason else merge_reasons s.queued_reason reason)

    by_provider :
        (o : Option SyncProviderKind) → is_some o ≡ true → IsKept (request_for o reason env s)
    by_provider none chosen = cc
    by_provider (some p) chosen =
        let queued = activate_history-queued_reason p s in
        let flying = activate_history-active p s in
        if-holds IsKept (not s.started) _ _ (λ off. ground arith)
          (λ runs.
            if-holds IsKept (not env.online) _ _ (λ away. ground arith)
              (λ here.
                if-holds IsKept (is_some (activate_history p s).active) _ _ (λ busy. ground arith)
                  (λ free. ground arith)))

-- A request that a started and online scheduler makes for the selected provider, with no pass in
-- flight, sets no timer that is due before the deadline that is known for the provider.
pub request_immediate-waits :
    (reason : AutoSyncReason) (p : SyncProviderKind) (env : Environment) (s : AutoSyncScheduler)
    (deadline : ℕ) (timer : PassTimer)
    → env.selected ≡ some p
    → s.started ≡ true
    → env.online ≡ true
    → s.active ≡ none
    → at_provider p s.loaded_provider_retry_after ≡ true
    → at_provider p s.provider_retry_after_at ≡ some deadline
    → (request_immediate reason env s).timer ≡ some timer
    → deadline ≤ timer.due
unfolding request_immediate request_for schedule activate_history read_provider_retry_delay
    load_provider_retry_after delay_until clear_provider_retry_after
request_immediate-waits reason git env s deadline timer chosen on online free loaded known set =
    ground arith
request_immediate-waits reason mega env s deadline timer chosen on online free loaded known set =
    ground arith

-- The seconds that a rate limit asks for are between one second and a day.
pub provider_retry_after_seconds-bounded :
    (error : SyncError) (seconds : ℕ)
    → provider_retry_after_seconds error ≡ some seconds
    → (1 ≤ seconds) × (seconds ≤ 86400)
unfolding provider_retry_after_seconds
provider_retry_after_seconds-bounded error seconds e = ground arith

pub settle-open :
    (pass : ActivePass) (outcome : Outcome) (env : Environment) (s : AutoSyncScheduler)
    → s.active ≡ some pass
    → s.started ≡ true
    → pass.aborted ≡ false
    → settle outcome env s ≡ settle_outcome pass outcome env s
unfolding settle settle_pass
settle-open pass outcome env s e on live = ground arith

-- A started scheduler with an aborted pass and no timer.
abbrev HasAborted : AutoSyncScheduler → Type 0
HasAborted s =
    (s.started ≡ true)
    × ((s.timer ≡ none) × (is_some s.active ≡ true) × (is_aborted s.active ≡ true))

request_immediate-HasAborted :
    (reason : AutoSyncReason) (env : Environment) (s : AutoSyncScheduler)
    → HasAborted s
    → HasAborted (request_immediate reason env s)
unfolding request_immediate request_for schedule activate_history
request_immediate-HasAborted reason env s h = ground arith

schedule_revision_check-HasAborted :
    (env : Environment) (s : AutoSyncScheduler)
    → HasAborted s
    → HasAborted (schedule_revision_check env s)
unfolding schedule_revision_check
schedule_revision_check-HasAborted env s h = ground arith

-- What a stop leaves of a pass in flight.
abbrev IsStopped : AutoSyncScheduler → Type 0
IsStopped s =
    (s.started ≡ false)
    × ((s.timer ≡ none) × ((is_some s.active ≡ true) × (is_aborted s.active ≡ true)))

stop-IsStopped :
    (s : AutoSyncScheduler) → s.started ≡ true → is_some s.active ≡ true → IsStopped (stop s)
unfolding stop
stop-IsStopped s on busy = ground arith

begin_start-HasAborted :
    (env : Environment) (s : AutoSyncScheduler)
    → IsStopped s
    → HasAborted
        (record (activate env.selected (record s { started = true })) { subscribed = true })
unfolding activate_history
begin_start-HasAborted env s h = ground arith

start-HasAborted :
    (env : Environment) (s : AutoSyncScheduler) → IsStopped s → HasAborted (start env s)
unfolding start
start-HasAborted env s h =
    if-holds HasAborted s.started _ _ (λ on. cc)
      (λ off.
        schedule_revision_check-HasAborted env _
          (request_immediate-HasAborted startup env _ (begin_start-HasAborted env s h)))

abbrev pub IsForgotten : AutoSyncScheduler → Type 0
IsForgotten s =
    (s.started ≡ true) × ((s.timer ≡ none) × ((s.queued_reason ≡ none) × (s.active ≡ none)))

settle-IsForgotten :
    (outcome : Outcome) (env : Environment) (s : AutoSyncScheduler)
    → HasAborted s
    → IsForgotten (settle outcome env s)
unfolding settle settle_pass
settle-IsForgotten outcome env s h = ground arith

-- The scheduler loses the start-up pass when it is stopped and started again while a pass is in
-- flight: when that pass settles, the scheduler is started, with no timer for a pass, no queued
-- reason and no pass.
pub restart-loses_startup :
    (outcome : Outcome) (env now : Environment) (s : AutoSyncScheduler)
    → s.started ≡ true
    → is_some s.active ≡ true
    → IsForgotten (settle outcome now (start env (stop s)))
restart-loses_startup outcome env now s on busy =
    settle-IsForgotten outcome now _ (start-HasAborted env _ (stop-IsStopped s on busy))
