-- ===== src/Workers/ChangeAware.antt =====
-- `ChangeAwareSyncWorker`: a pass is left out, or made for pending reading state alone, when the
-- revision of the destination is the one of the checkpoint.
use omnia_reader.Prelude.{
  ◌+◌, String, Bool, true, false, not, ◌&&◌, ◌||◌, ◌==◌, Option, none, some, List, ◌∷◌, eqb, ltb,
  is_empty, if◌then◌else◌,
}
use omnia_reader.Prelude.Action.{Outcome, returned, thrown, pure, ◌>>=◌, ◌>>◌}
use omnia_reader.AutoSync.State.{SyncProviderKind, git, SyncWorkerResult}
use omnia_reader.Workers.Types.{
  SyncOperation, SyncWorkerOptions, WorkerError, unchanged_result, asked_pending, asked_revision,
  read_checkpoint, delegated, targeted, Ports, WorkerAction, ask, set_scope, write_checkpoint,
  throw_if_aborted, then_check,
}
use omnia_reader.Workers.Revisions.{valid_revision, revision_scope, is_reading_state_only}

abbrev pub same_option : Option String → Option String → Bool
same_option none none = true
same_option (some a) (some b) = a == b
same_option _ _ = false

-- No conflict, nothing rejected, and no maintenance that waits.
unfoldable pub is_settled : SyncWorkerResult → Bool
is_settled r = eqb r.conflicts 0 && eqb r.rejected 0 && not r.maintenance_pending

-- `stable ? revisionAfter : null`, where `stable` compares it with the revision before
unfoldable pub stable_revision :
    {P : Type 0}
    → Option String
    → Option String
    → List (SyncOperation P)
    → SyncWorkerResult
    → Option String
unfolding is_settled
stable_revision before after pending_after result =
    if same_option before after
      && is_empty pending_after
      && eqb result.pushed 0
      && is_settled result
    then after
    else none

unfoldable pub combine_results : SyncWorkerResult → SyncWorkerResult → SyncWorkerResult
combine_results initial verification = record {
  pulled = initial.pulled + verification.pulled;
  pushed = initial.pushed + verification.pushed;
  conflicts = initial.conflicts + verification.conflicts;
  rejected = initial.rejected + verification.rejected;
  unchanged = initial.unchanged;
  maintenance_pending = verification.maintenance_pending;
}

-- `safeCheckpointRead`
unfoldable pub trusted : Outcome WorkerError (Option String) → Option String
unfolding valid_revision
trusted (thrown e) = none
trusted (returned none) = none
trusted (returned (some revision)) = if valid_revision revision then some revision else none

module _ {P : Type 0} (ports : Ports P) where
  abbrev pub ask_pending : WorkerAction P (List (SyncOperation P))
  ask_pending = then_check ports (ask asked_pending ports.pending)

  abbrev pub ask_revision : WorkerAction P (Option String)
  ask_revision = then_check ports (ask asked_revision ports.destination_revision)

  abbrev pub synchronize_delegate : WorkerAction P SyncWorkerResult
  synchronize_delegate = ask delegated ports.delegate

  unfoldable pub safe_checkpoint_read : WorkerAction P (Option String)
  unfolding trusted
  safe_checkpoint_read s =
      let given = ports.checkpoint s.history in
      (
        returned (trusted given),
        record { scope = s.scope; history = read_checkpoint given ∷ s.history },
      )

  abbrev pub Observation : Type 0
  Observation = SyncWorkerResult × List (SyncOperation P) × Option String

  unfoldable pub observe_revision :
      SyncWorkerResult → List (SyncOperation P) → WorkerAction P Observation
  unfolding then_check
  observe_revision result pending_after =
      ask_revision >>= λ revision_after. pure (result, pending_after, revision_after)

  unfoldable pub observe_pending : SyncWorkerResult → WorkerAction P Observation
  unfolding then_check observe_revision
  observe_pending result = ask_pending >>= observe_revision result

  -- A pass, and the journal and the revision after it.
  unfoldable pub observed_pass : WorkerAction P Observation
  unfolding then_check observe_pending
  observed_pass = then_check ports synchronize_delegate >>= observe_pending

  -- The second pass, which verifies the first.
  unfoldable pub conclude :
      SyncWorkerResult → Option String → Observation → WorkerAction P SyncWorkerResult
  unfolding stable_revision combine_results
  conclude result revision_after second =
      write_checkpoint (stable_revision revision_after second.2 second.1 second.0)
      >> pure (combine_results result second.0)

  unfoldable pub verify : SyncWorkerResult → Option String → WorkerAction P SyncWorkerResult
  unfolding observed_pass conclude
  verify result revision_after = observed_pass >>= conclude result revision_after

  -- Whether a pass has changed the destination and left nothing else open.
  unfoldable pub needs_verification :
      String → SyncWorkerResult → List (SyncOperation P) → Option String → Bool
  unfolding is_settled
  needs_verification revision_before result pending_after none = false
  needs_verification revision_before result pending_after (some revision_after) =
      is_empty pending_after
      && is_settled result
      && (ltb 0 result.pushed || not (revision_before == revision_after))

  unfoldable pub after_pass : String → Observation → WorkerAction P SyncWorkerResult
  unfolding verify needs_verification stable_revision
  after_pass revision_before first =
      if needs_verification revision_before first.0 first.1 first.2
      then verify first.0 first.2
      else write_checkpoint (stable_revision (some revision_before) first.2 first.1 first.0)
        >> pure first.0

  unfoldable pub full_pass : String → WorkerAction P SyncWorkerResult
  unfolding observed_pass after_pass
  full_pass revision_before s =
      (observed_pass >>= after_pass revision_before) (record { scope = none; history = s.history })

  -- The `catch` around the targeted worker.
  unfoldable pub run_targeted : List (SyncOperation P) → WorkerAction P SyncWorkerResult
  run_targeted operations s =
      let (reply, left) = ask (targeted operations) (ports.reading_state operations) s in
      elim reply [
        | returned r ↦ (returned r, left)
        | thrown e ↦ (thrown e, record { scope = none; history = left.history })
      ]

  unfoldable pub after_targeted :
      String → SyncWorkerResult → List (SyncOperation P) → WorkerAction P SyncWorkerResult
  unfolding is_settled revision_scope
  after_targeted revision_before result pending_after =
      set_scope (if is_settled result then revision_scope revision_before else none)
      >> (if ltb 0 result.pushed || not (is_settled result) || not (is_empty pending_after)
          then write_checkpoint none
          else pure tt)
      >> pure result

  unfoldable pub targeted_pending : String → SyncWorkerResult → WorkerAction P SyncWorkerResult
  unfolding then_check after_targeted
  targeted_pending revision_before result = ask_pending >>= after_targeted revision_before result

  unfoldable pub targeted_pass : String → List (SyncOperation P) → WorkerAction P SyncWorkerResult
  unfolding then_check run_targeted targeted_pending
  targeted_pass revision_before pending_before =
      then_check ports (run_targeted pending_before) >>= targeted_pending revision_before

  unfoldable pub may_target :
      SyncWorkerOptions → Option String → Option String → String → List (SyncOperation P) → Bool
  unfolding revision_scope is_reading_state_only
  may_target options scope checkpoint revision_before pending_before =
      not options.full_reconciliation
      && ports.has_reading_state_worker
      && (same_option checkpoint (some revision_before)
          || same_option scope (revision_scope revision_before))
      && is_reading_state_only pending_before

  unfoldable pub targeted_or_full :
      SyncWorkerOptions
      → Option String
      → String
      → List (SyncOperation P)
      → WorkerAction P SyncWorkerResult
  unfolding may_target targeted_pass full_pass
  targeted_or_full options checkpoint revision_before pending_before s =
      if may_target options s.scope checkpoint revision_before pending_before
      then targeted_pass revision_before pending_before s
      else full_pass revision_before s

  unfoldable pub after_probe :
      SyncWorkerOptions
      → Option String
      → String
      → List (SyncOperation P)
      → List (SyncOperation P)
      → WorkerAction P SyncWorkerResult
  unfolding targeted_or_full
  after_probe options checkpoint revision_before pending_before pending_after_probe =
      if is_empty pending_after_probe
      then pure unchanged_result
      else targeted_or_full options checkpoint revision_before pending_before

  unfoldable pub with_checkpoint :
      SyncWorkerOptions
      → List (SyncOperation P)
      → String
      → Option String
      → WorkerAction P SyncWorkerResult
  unfolding then_check after_probe targeted_or_full
  with_checkpoint options pending_before revision_before checkpoint =
      if not options.full_reconciliation
        && is_empty pending_before
        && same_option checkpoint (some revision_before)
      then ask_pending >>= after_probe options checkpoint revision_before pending_before
      else targeted_or_full options checkpoint revision_before pending_before

  unfoldable pub with_revision :
      SyncWorkerOptions → List (SyncOperation P) → Option String → WorkerAction P SyncWorkerResult
  unfolding safe_checkpoint_read with_checkpoint
  with_revision options pending_before none = synchronize_delegate
  with_revision options pending_before (some revision_before) =
      safe_checkpoint_read >>= with_checkpoint options pending_before revision_before

  unfoldable pub with_pending :
      SyncWorkerOptions → List (SyncOperation P) → WorkerAction P SyncWorkerResult
  unfolding then_check with_revision
  with_pending options pending_before = ask_revision >>= with_revision options pending_before

  unfoldable pub run_on_git : SyncWorkerOptions → WorkerAction P SyncWorkerResult
  unfolding then_check with_pending
  run_on_git options = ask_pending >>= with_pending options

  -- `provider === 'git'` and a remote that has `destinationRevision`
  unfoldable pub is_change_aware : Option SyncProviderKind → Bool
  is_change_aware (some git) = ports.has_revisions
  is_change_aware _ = false

  unfoldable pub run_for_provider : SyncWorkerOptions → WorkerAction P SyncWorkerResult
  unfolding run_on_git is_change_aware
  run_for_provider options s =
      if is_change_aware (ports.selected s.history)
      then run_on_git options s
      else (set_scope none >> synchronize_delegate) s

  unfoldable pub run_synchronization : SyncWorkerOptions → WorkerAction P SyncWorkerResult
  unfolding throw_if_aborted run_for_provider
  run_synchronization options = throw_if_aborted ports >> run_for_provider options
