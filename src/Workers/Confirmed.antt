-- ===== src/Workers/Confirmed.antt =====
-- Every call of the worker keeps the checkpoints confirmed, however it ends.
use omnia_reader.Prelude.{
  String, ◌≡◌, refl, not, ◌&&◌, ◌||◌, Option, none, some, List, ◌∷◌, is_empty, ltb, if◌then◌else◌,
  if-holds,
}
use omnia_reader.Prelude.Action.{Outcome, returned, thrown, pure, ◌>>◌, bind-Ends}
use omnia_reader.AutoSync.State.{SyncWorkerResult}
use omnia_reader.Workers.Types.{
  SyncOperation, SyncWorkerOptions, WorkerError, asked_pending, asked_revision, delegated, targeted,
  read_checkpoint, Ports, Worker, WorkerAction, throw_if_aborted, throw_some, then_check,
}
use omnia_reader.Workers.Revisions.{revision_scope}
use omnia_reader.Workers.ChangeAware.{
  same_option, ask_pending, ask_revision, synchronize_delegate, safe_checkpoint_read, run_targeted,
  is_settled, trusted, after_targeted, targeted_pending, targeted_pass, may_target,
  targeted_or_full, after_probe, with_checkpoint, with_revision, with_pending, run_on_git,
  is_change_aware, run_for_provider, run_synchronization,
}
use omnia_reader.Workers.Checkpoints.{
  IsConfirmed, Sound, Keeps, last_revision, then_check-Ends, abort-Ends, full_pass-Keeps,
}

module _ {P : Type 0} (ports : Ports P) where
  -- What keeps the checkpoints confirmed and the revision known.
  abbrev Knows : String → Worker P → Type 0
  Knows revision s = Sound s × (last_revision s.history ≡ some revision)

  delegate-Keeps : (s : Worker P) → Sound s → Keeps ports (synchronize_delegate ports s)
  delegate-Keeps s sound = by_answer (ports.delegate s.history)
    where
      by_answer :
          (o : Outcome WorkerError SyncWorkerResult)
          → Keeps ports (o, record { scope = s.scope; history = delegated o ∷ s.history })
      by_answer (returned r) = sound
      by_answer (thrown e) = sound

  run_targeted-Keeps :
      (operations : List (SyncOperation P)) (s : Worker P)
      → Sound s
      → Keeps ports (run_targeted ports operations s)
  unfolding run_targeted
  run_targeted-Keeps operations s sound = by_answer (ports.reading_state operations s.history)
    where
      by_answer :
          (o : Outcome WorkerError SyncWorkerResult)
          → Keeps ports (elim o as (λ x. Outcome WorkerError SyncWorkerResult × Worker P) [
            | returned r ↦ (
              returned r,
              record { scope = s.scope; history = targeted operations o ∷ s.history },
            )
            | thrown e ↦
                (thrown e, record { scope = none; history = targeted operations o ∷ s.history })
          ])
      by_answer (returned r) = sound
      by_answer (thrown e) = sound

  then_check-Keeps :
      {A : Type 0} (m : WorkerAction P A) (s : Worker P)
      → Keeps ports (m s)
      → Keeps ports (then_check ports m s)
  unfolding then_check
  then_check-Keeps m s kept =
      bind-Ends (λ a u. Sound u) (λ a u. Sound u) Sound m (λ a. throw_if_aborted ports >> pure a) s
        kept (λ a u sound. abort-Ends (λ b v. Sound v) ports a u sound sound)

  after_targeted-Keeps :
      (revision_before : String) (result : SyncWorkerResult) (ps : List (SyncOperation P))
      (s : Worker P)
      → Sound s
      → Keeps ports (after_targeted ports revision_before result ps s)
  unfolding after_targeted
  after_targeted-Keeps revision_before result ps s sound =
      if-holds
        (λ (m : WorkerAction P Unit). Keeps ports (
          (m >> pure result) (record {
            scope = if is_settled result then revision_scope revision_before else none;
            history = s.history;
          })))
        (ltb 0 result.pushed || not (is_settled result) || not (is_empty ps)) _ _ (λ writes. sound)
        (λ skips. sound)

  targeted_pass-Keeps :
      (revision_before : String) (operations : List (SyncOperation P)) (s : Worker P)
      → Sound s
      → Keeps ports (targeted_pass ports revision_before operations s)
  unfolding targeted_pass targeted_pending
  targeted_pass-Keeps revision_before operations s sound =
      bind-Ends (λ r u. Sound u) (λ r u. Sound u) Sound
        (then_check ports (run_targeted ports operations)) (targeted_pending ports revision_before)
        s
        (then_check-Keeps (run_targeted ports operations) s (run_targeted-Keeps operations s sound))
        (λ result u kept.
          bind-Ends (λ ps v. v.history ≡ asked_pending (returned ps) ∷ u.history) (λ r v. Sound v)
            Sound (ask_pending ports) (after_targeted ports revision_before result) u
            (then_check-Ends ports asked_pending ports.pending u (λ o. kept))
            (λ ps v e. after_targeted-Keeps revision_before result ps v (rw e kept)))

  targeted_or_full-Keeps :
      (options : SyncWorkerOptions) (checkpoint : Option String) (revision_before : String)
      (operations : List (SyncOperation P)) (s : Worker P)
      → Knows revision_before s
      → Keeps ports (targeted_or_full ports options checkpoint revision_before operations s)
  unfolding targeted_or_full
  targeted_or_full-Keeps options checkpoint revision_before operations s knows =
      if-holds (Keeps ports)
        (may_target ports options s.scope checkpoint revision_before operations) _ _
        (λ target. targeted_pass-Keeps revision_before operations s knows.0)
        (λ full. full_pass-Keeps ports revision_before s knows.0 knows.1)

  -- A question that leaves the revision known.
  asked-Knows :
      (revision : String) (ps : List (SyncOperation P)) (s u : Worker P)
      → Knows revision s
      → u.history ≡ asked_pending (returned ps) ∷ s.history
      → Knows revision u
  asked-Knows revision ps s u knows e = rw e knows

  with_checkpoint-Keeps :
      (options : SyncWorkerOptions) (operations : List (SyncOperation P)) (revision : String)
      (checkpoint : Option String) (s : Worker P)
      → Knows revision s
      → Keeps ports (with_checkpoint ports options operations revision checkpoint s)
  unfolding with_checkpoint after_probe
  with_checkpoint-Keeps options operations revision checkpoint s knows =
      if-holds (λ (m : WorkerAction P SyncWorkerResult). Keeps ports (m s))
        (not options.full_reconciliation
          && is_empty operations
          && same_option checkpoint (some revision))
        _ _
        (λ same.
          bind-Ends (λ ps u. u.history ≡ asked_pending (returned ps) ∷ s.history) (λ r u. Sound u)
            Sound (ask_pending ports) (after_probe ports options checkpoint revision operations) s
            (then_check-Ends ports asked_pending ports.pending s (λ o. knows.0))
            (λ ps u e.
              if-holds (λ (m : WorkerAction P SyncWorkerResult). Keeps ports (m u)) (is_empty ps) _
                _ (λ unchanged. (asked-Knows revision ps s u knows e).0)
                (λ new.
                  targeted_or_full-Keeps options checkpoint revision operations u
                    (asked-Knows revision ps s u knows e))))
        (λ differs. targeted_or_full-Keeps options checkpoint revision operations s knows)

  with_revision-Keeps :
      (options : SyncWorkerOptions) (operations : List (SyncOperation P)) (o : Option String)
      (s : Worker P)
      → Sound s
      → last_revision s.history ≡ o
      → Keeps ports (with_revision ports options operations o s)
  unfolding with_revision safe_checkpoint_read
  with_revision-Keeps options operations none s sound known = delegate-Keeps s sound
  with_revision-Keeps options operations (some revision) s sound known =
      with_checkpoint-Keeps options operations revision (trusted (ports.checkpoint s.history))
        (record {
          scope = s.scope;
          history = read_checkpoint (ports.checkpoint s.history) ∷ s.history;
        })
        (sound, known)

  run_on_git-Keeps :
      (options : SyncWorkerOptions) (s : Worker P)
      → Sound s
      → Keeps ports (run_on_git ports options s)
  unfolding run_on_git with_pending
  run_on_git-Keeps options s sound =
      bind-Ends (λ ps u. u.history ≡ asked_pending (returned ps) ∷ s.history) (λ r u. Sound u) Sound
        (ask_pending ports) (with_pending ports options) s
        (then_check-Ends ports asked_pending ports.pending s (λ o. sound))
        (λ ps u e.
          bind-Ends (λ o v. v.history ≡ asked_revision (returned o) ∷ u.history) (λ r v. Sound v)
            Sound (ask_revision ports) (with_revision ports options ps) u
            (then_check-Ends ports asked_revision ports.destination_revision u (λ o. rw e sound))
            (λ o v f. with_revision-Keeps options ps o v (rw (f, e) sound) (rw f refl)))

  run_for_provider-Keeps :
      (options : SyncWorkerOptions) (s : Worker P)
      → Sound s
      → Keeps ports (run_for_provider ports options s)
  unfolding run_for_provider
  run_for_provider-Keeps options s sound =
      if-holds (Keeps ports) (is_change_aware ports (ports.selected s.history)) _ _
        (λ aware. run_on_git-Keeps options s sound)
        (λ unaware. delegate-Keeps (record { scope = none; history = s.history }) sound)

  signal-Keeps : (s : Worker P) → Sound s → Keeps ports (throw_if_aborted ports s)
  unfolding throw_if_aborted
  signal-Keeps s sound = by_signal (ports.aborted s.history)
    where
      by_signal : (o : Option WorkerError) → Keeps ports (throw_some o s)
      by_signal none = sound
      by_signal (some e) = sound

  Keeps-Sound : {A : Type 0} (r : Outcome WorkerError A × Worker P) → Keeps ports r → Sound r.1
  Keeps-Sound (returned a, u) kept = kept
  Keeps-Sound (thrown e, u) kept = kept

-- However a run of the worker ends, each checkpoint that it wrote with a revision was witnessed: just
-- before came a pass that pushed nothing and left nothing open, an empty journal, and that revision,
-- which was also the last one asked for before the pass.
pub run_synchronization-IsConfirmed :
    {P : Type 0} (ports : Ports P) (options : SyncWorkerOptions) (s : Worker P)
    → IsConfirmed s.history
    → IsConfirmed (run_synchronization ports options s).1.history
unfolding run_synchronization
run_synchronization-IsConfirmed ports options s sound =
    Keeps-Sound ports (run_synchronization ports options s) (
      bind-Ends (λ t u. Sound u) (λ r u. Sound u) Sound (throw_if_aborted ports)
        (λ t. run_for_provider ports options) s (signal-Keeps ports s sound)
        (λ t u kept. run_for_provider-Keeps ports options u kept))
