-- ===== src/Workers/Checkpoints.antt =====
-- When a checkpoint is written, and when a pass is left out.
use omnia_reader.Prelude.{
  String, ◌≡◌, refl, ap, ◌∙◌, true, ◌&&◌, Option, none, some, List, [], ◌∷◌, eqb, is_empty, arith,
  eq_iff, if-holds,
}
use omnia_reader.Prelude.Action.{Outcome, returned, thrown, pure, ◌>>◌, Ends, bind-Ends}
use omnia_reader.AutoSync.State.{SyncWorkerResult}
use omnia_reader.Workers.Types.{
  SyncOperation, WorkerError, Event, asked_pending, asked_revision, wrote_checkpoint, delegated,
  History, Ports, Worker, WorkerAction, ask, throw_if_aborted, throw_some, then_check,
}
use omnia_reader.Workers.ChangeAware.{
  same_option, is_settled, stable_revision, ask_pending, ask_revision, Observation,
  observe_revision, observe_pending, conclude, after_pass, synchronize_delegate, observed_pass,
  verify, needs_verification, full_pass,
}

module _ {P : Type 0} where
  -- The answer of the last successful question for the destination's revision.
  abbrev pub last_revision : History P → Option String
  last_revision [] = none
  last_revision (asked_revision (returned o) ∷ h) = o
  last_revision (_ ∷ h) = last_revision h

  -- The last calls were a pass that pushed nothing and left nothing open, a question for the journal,
  -- which was empty, and one for the revision, which was the one before the pass.
  abbrev pub Witnessed : String → History P → Type 0
  Witnessed revision h =
      (result : SyncWorkerResult) × (rest : History P) × (h
        ≡ asked_revision (returned (some revision))
          ∷ asked_pending (returned [])
          ∷ delegated (returned result)
          ∷ rest)
      × (result.pushed ≡ 0)
      × (is_settled result ≡ true)
      × (last_revision rest ≡ some revision)

  -- Every checkpoint that was written with a revision was witnessed.
  abbrev pub IsConfirmed : History P → Type 0
  IsConfirmed [] = Unit
  IsConfirmed (wrote_checkpoint (some revision) ∷ h) = Witnessed revision h × IsConfirmed h
  IsConfirmed (_ ∷ h) = IsConfirmed h

  abbrev pub Sound : Worker P → Type 0
  Sound s = IsConfirmed s.history

  -- A test of the signal changes nothing.
  pub abort-Ends :
      {A : Type 0} (Q : A → Worker P → Type 0) (ports : Ports P) (a : A) (s : Worker P)
      → Q a s
      → Sound s
      → Ends Q Sound ((throw_if_aborted ports >> pure a) s)
  unfolding throw_if_aborted
  abort-Ends Q ports a s q sound = by_signal (ports.aborted s.history)
    where
      by_signal : (o : Option WorkerError) → Ends Q Sound ((throw_some o >> pure a) s)
      by_signal none = q
      by_signal (some e) = sound

  -- A question and the test of the signal.
  pub then_check-Ends :
      {A : Type 0} (ports : Ports P) (event : Outcome WorkerError A → Event P)
      (answer : History P → Outcome WorkerError A) (s : Worker P)
      → ((o : Outcome WorkerError A) → IsConfirmed (event o ∷ s.history))
      → Ends
          (λ a u. u.history ≡ event (returned a) ∷ s.history)
          Sound
          (then_check ports (ask event answer) s)
  unfolding then_check
  then_check-Ends {A = A} ports event answer s sound =
      bind-Ends (λ a u. u.history ≡ event (returned a) ∷ s.history)
        (λ a u. u.history ≡ event (returned a) ∷ s.history) Sound (ask event answer)
        (λ a. throw_if_aborted ports >> pure a) s (by_answer (answer s.history))
        (λ a u h.
          abort-Ends (λ b v. v.history ≡ event (returned b) ∷ s.history) ports a u h
            (rw h (sound (returned a))))
    where
      by_answer :
          (o : Outcome WorkerError A)
          → Ends
              (λ a u. u.history ≡ event (returned a) ∷ s.history)
              Sound
              (o, record { scope = s.scope; history = event o ∷ s.history })
      by_answer (returned a) = refl
      by_answer (thrown e) = sound (thrown e)

  module _ (ports : Ports P) where
    abbrev Answered : History P → Observation ports → Worker P → Type 0
    Answered h a u =
        u.history
        ≡ asked_revision (returned a.2)
          ∷ asked_pending (returned a.1)
          ∷ delegated (returned a.0)
          ∷ h

    observe_revision-Ends :
        (result : SyncWorkerResult) (ps : List (SyncOperation P)) (h : History P) (s : Worker P)
        → IsConfirmed h
        → s.history ≡ asked_pending (returned ps) ∷ delegated (returned result) ∷ h
        → Ends (Answered h) Sound (observe_revision ports result ps s)
    unfolding observe_revision
    observe_revision-Ends result ps h s sound e =
        bind-Ends (λ o u. u.history ≡ asked_revision (returned o) ∷ s.history) (Answered h) Sound
          (ask_revision ports) (λ o. pure (result, ps, o)) s
          (then_check-Ends ports asked_revision ports.destination_revision s (λ o. rw e sound))
          (λ o u f. f ∙ ap (λ l. asked_revision (returned o) ∷ l) e)

    observe_pending-Ends :
        (result : SyncWorkerResult) (h : History P) (s : Worker P)
        → IsConfirmed h
        → s.history ≡ delegated (returned result) ∷ h
        → Ends (Answered h) Sound (observe_pending ports result s)
    unfolding observe_pending
    observe_pending-Ends result h s sound e =
        bind-Ends (λ ps u. u.history ≡ asked_pending (returned ps) ∷ s.history) (Answered h) Sound
          (ask_pending ports) (observe_revision ports result) s
          (then_check-Ends ports asked_pending ports.pending s (λ o. rw e sound))
          (λ ps u f.
            observe_revision-Ends result ps h u sound
              (f ∙ ap (λ l. asked_pending (returned ps) ∷ l) e))

    observed_pass-Ends :
        (s : Worker P) → Sound s → Ends (Answered s.history) Sound (observed_pass ports s)
    unfolding observed_pass
    observed_pass-Ends s sound =
        bind-Ends (λ result u. u.history ≡ delegated (returned result) ∷ s.history)
          (Answered s.history) Sound (then_check ports (synchronize_delegate ports))
          (observe_pending ports) s (then_check-Ends ports delegated ports.delegate s (λ o. sound))
          (λ result u f. observe_pending-Ends result s.history u sound f)

    wrote_when_stable :
        (before after : Option String) (ps : List (SyncOperation P)) (result : SyncWorkerResult)
        (h : History P)
        → IsConfirmed h
        → last_revision h ≡ before
        → (same_option before after && is_empty ps && eqb result.pushed 0 && is_settled result)
          ≡ true
        → IsConfirmed (
            wrote_checkpoint after
            ∷ asked_revision (returned after)
            ∷ asked_pending (returned ps)
            ∷ delegated (returned result)
            ∷ h)
    wrote_when_stable before none ps result h sound known ok = sound
    wrote_when_stable none (some r) ps result h sound known ok = ground arith
    wrote_when_stable (some b) (some r) (p ∷ ps) result h sound known ok = ground arith
    wrote_when_stable (some b) (some r) [] result h sound known ok =
        ((result, h, refl, ground arith, ground arith, ground (arith, eq_iff b r)), sound)

    -- What the worker writes when the revision before was known is witnessed.
    stable_revision-IsConfirmed :
        (before : Option String) (a : Observation ports) (h : History P) (s : Worker P)
        → IsConfirmed h
        → last_revision h ≡ before
        → Answered h a s
        → IsConfirmed (wrote_checkpoint (stable_revision before a.2 a.1 a.0) ∷ s.history)
    unfolding stable_revision
    stable_revision-IsConfirmed before a h s sound known e =
        if-holds (λ w. IsConfirmed (wrote_checkpoint w ∷ s.history))
          (same_option before a.2 && is_empty a.1 && eqb a.0.pushed 0 && is_settled a.0) a.2 none
          (λ stable. rw e (wrote_when_stable before a.2 a.1 a.0 h sound known stable))
          (λ unstable. rw e sound)

    abbrev pub Keeps : {A : Type 0} → Outcome WorkerError A × Worker P → Type 0
    Keeps = Ends (λ a u. Sound u) Sound

    verify-Keeps :
        (result : SyncWorkerResult) (revision_after : Option String) (s : Worker P)
        → Sound s
        → last_revision s.history ≡ revision_after
        → Keeps (verify ports result revision_after s)
    unfolding verify conclude
    verify-Keeps result revision_after s sound known =
        bind-Ends (Answered s.history) (λ a u. Sound u) Sound (observed_pass ports)
          (conclude ports result revision_after) s (observed_pass-Ends s sound)
          (λ a u e. stable_revision-IsConfirmed revision_after a s.history u sound known e)

    after_pass-Keeps :
        (revision_before : String) (first : Observation ports) (h : History P) (s : Worker P)
        → IsConfirmed h
        → last_revision h ≡ some revision_before
        → Answered h first s
        → Keeps (after_pass ports revision_before first s)
    unfolding after_pass
    after_pass-Keeps revision_before first h s sound known e =
        if-holds (λ (m : WorkerAction P SyncWorkerResult). Keeps (m s))
          (needs_verification ports revision_before first.0 first.1 first.2) _ _
          (λ verified. verify-Keeps first.0 first.2 s (rw e sound) (rw e refl))
          (λ plain. stable_revision-IsConfirmed (some revision_before) first h s sound known e)

    pub full_pass-Keeps :
        (revision_before : String) (s : Worker P)
        → Sound s
        → last_revision s.history ≡ some revision_before
        → Keeps (full_pass ports revision_before s)
    unfolding full_pass
    full_pass-Keeps revision_before s sound known =
        bind-Ends (Answered s.history) (λ a u. Sound u) Sound (observed_pass ports)
          (after_pass ports revision_before) (record { scope = none; history = s.history })
          (observed_pass-Ends (record { scope = none; history = s.history }) sound)
          (λ a u e. after_pass-Keeps revision_before a s.history u sound known e)
