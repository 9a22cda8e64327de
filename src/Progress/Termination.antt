-- ===== src/Progress/Termination.antt =====
-- The loop of a push ends: a turn that is tried again has retries left.
use omnia_reader.Prelude.{
  ℕ, zero, suc, ◌+◌, ◌≤◌, ◌<◌, ◌≡◌, refl, String, Bool, true, false, not, Option, none, some, leb,
  arith, if-holds,
}
use omnia_reader.Prelude.Action.{
  Outcome, returned, thrown, pure, raise, ◌>>=◌, ◌>>◌, Ends, bind-Ends,
}
use omnia_reader.Progress.Documents.{ReadingProgress, merge_progress_document}
use omnia_reader.Progress.Push.{
  RemoteDocument, PendingProgressWrite, PushError, sync_conflict, different_documents, other_error,
  PushResult, PushPorts, PushState, PushAction, Turn, ended, again, call, set_known, was_read,
  was_written, was_saved, was_acknowledged, pending_path, save_and_acknowledge, write_request,
  write_document, caught, same_content, push_merged, is_same_document, push_parsed, push_current,
  push_attempt, PushEnd, after_turn, push_progress,
}

abbrev Anything : PushState → Type 0
Anything s = Unit

any-Ends : {A : Type 0} (r : Outcome PushError A × PushState) → Ends (λ a u. Unit) Anything r
any-Ends (returned a, s) = tt
any-Ends (thrown e, s) = tt

abbrev pub conflicts_of : Outcome PushError PushResult → ℕ
conflicts_of (returned result) = result.conflicts
conflicts_of (thrown e) = 0

suc_eq : (n : ℕ) → n + 1 ≡ suc n
suc_eq n = omega arith

module _ (ports : PushPorts) (pending : PendingProgressWrite) where
  -- A turn that ends has the conflicts that it was given, and one more follows while retries are left.
  abbrev TurnIsSound : ℕ → ℕ → Turn → PushState → Type 0
  TurnIsSound attempt conflicts (ended result) s = result.conflicts ≡ conflicts
  TurnIsSound attempt conflicts again s = attempt < ports.max_conflict_retries

  abbrev Sound : ℕ → ℕ → Outcome PushError Turn × PushState → Type 0
  Sound attempt conflicts = Ends (TurnIsSound attempt conflicts) Anything

  save-Sound :
      (attempt conflicts : ℕ) (progress : ReadingProgress) (pushed : Bool) (s : PushState)
      → Sound attempt conflicts (
          save_and_acknowledge ports pending progress
            (record { pushed = pushed; conflicts = conflicts; rejected = 0 })
            s)
  unfolding save_and_acknowledge
  save-Sound attempt conflicts progress pushed s =
      bind-Ends (λ a u. Unit) (TurnIsSound attempt conflicts) Anything
        (call (was_saved progress) (ports.save_document progress)
          >> call (was_acknowledged pending.operation_ids)
              (ports.acknowledge pending.operation_ids))
        (λ t. pure (ended (record { pushed = pushed; conflicts = conflicts; rejected = 0 }))) s
        (any-Ends _) (λ t u k. refl)

  -- Before the `catch` no turn is tried again.
  write-Sound :
      (attempt conflicts : ℕ) (current : Option RemoteDocument) (progress : ReadingProgress)
      (s : PushState)
      → Sound attempt conflicts (write_document ports pending current progress conflicts s)
  unfolding write_document
  write-Sound attempt conflicts current progress s =
      bind-Ends (λ a u. Unit) (TurnIsSound attempt conflicts) Anything
        (call (was_written (write_request ports pending current progress))
          (ports.write_remote (write_request ports pending current progress)))
        (λ written.
          set_known (pending_path ports pending) (some written)
          >> save_and_acknowledge ports pending progress
              (record { pushed = true; conflicts = conflicts; rejected = 0 }))
        s (any-Ends _) (λ written u k. save-Sound attempt conflicts progress true _)

  caught-Sound :
      (attempt conflicts : ℕ) (r : Outcome PushError Turn × PushState)
      → Sound attempt conflicts r
      → Sound attempt conflicts (caught ports pending attempt r)
  unfolding caught
  caught-Sound attempt conflicts (returned turn, s) sound = sound
  caught-Sound attempt conflicts (thrown sync_conflict, s) sound =
      if-holds (Sound attempt conflicts) (leb ports.max_conflict_retries attempt) _ _ (λ over. tt)
        (λ left. ground arith)
  caught-Sound attempt conflicts (thrown different_documents, s) sound = tt
  caught-Sound attempt conflicts (thrown (other_error text), s) sound = tt

  known-Sound :
      (attempt conflicts : ℕ) (path : String) (current : Option RemoteDocument)
      (m : PushAction Turn) (s : PushState)
      → ((u : PushState) → Sound attempt conflicts (m u))
      → Sound attempt conflicts ((set_known path current >> m) s)
  known-Sound attempt conflicts path none m s sound = sound _
  known-Sound attempt conflicts path (some document) m s sound = sound _

  merged-Sound :
      (attempt conflicts : ℕ) (current : Option RemoteDocument) (progress : ReadingProgress)
      (s : PushState)
      → Sound attempt conflicts (push_merged ports pending attempt conflicts current progress s)
  unfolding push_merged
  merged-Sound attempt conflicts current progress s =
      if-holds (Sound attempt conflicts) (same_content ports pending current progress) _ _
        (λ same.
          known-Sound attempt conflicts (pending_path ports pending) current
            (save_and_acknowledge ports pending progress
              (record { pushed = false; conflicts = conflicts; rejected = 0 }))
            s (save-Sound attempt conflicts progress false))
        (λ new. caught-Sound attempt conflicts _ (write-Sound attempt conflicts current progress s))

  parsed-Sound :
      (attempt conflicts : ℕ) (current : Option RemoteDocument) (remote : Option ReadingProgress)
      (s : PushState)
      → Sound attempt conflicts (push_parsed ports pending attempt conflicts current remote s)
  unfolding push_parsed
  parsed-Sound attempt conflicts none remote s =
      merged-Sound attempt conflicts none pending.progress s
  parsed-Sound attempt conflicts (some document) none s = refl
  parsed-Sound attempt conflicts (some document) (some remote) s =
      if-holds (λ (m : PushAction Turn). Sound attempt conflicts (m s))
        (not (is_same_document ports pending remote)) _ _ (λ other. refl)
        (λ same. by_merge (merge_progress_document ports.documents remote pending.progress))
    where
      by_merge :
          (o : Option ReadingProgress)
          → Sound attempt conflicts (
              (elim o as (λ x. PushAction Turn) [
                | none ↦ raise different_documents
                | some progress ↦
                    push_merged ports pending attempt conflicts (some document) progress
              ])
                s)
      by_merge none = tt
      by_merge (some progress) = merged-Sound attempt conflicts (some document) progress s

  current-Sound :
      (attempt conflicts : ℕ) (current : Option RemoteDocument) (s : PushState)
      → Sound attempt conflicts (push_current ports pending attempt conflicts current s)
  unfolding push_current
  current-Sound attempt conflicts current s =
      known-Sound attempt conflicts (pending_path ports pending) current _ s (
        parsed-Sound attempt conflicts current
          (elim current [ none ↦ none | some document ↦ ports.parse document.content ]))

  read-Sound :
      (attempt conflicts : ℕ) (s : PushState)
      → Sound attempt conflicts (
          (call was_read (ports.read_remote (pending_path ports pending))
              >>= push_current ports pending attempt conflicts)
            s)
  read-Sound attempt conflicts s =
      bind-Ends (λ a u. Unit) (TurnIsSound attempt conflicts) Anything
        (call was_read (ports.read_remote (pending_path ports pending)))
        (push_current ports pending attempt conflicts) s (any-Ends _)
        (λ current u k. current-Sound attempt conflicts current u)

  attempt-Sound :
      (initial : Option (Option RemoteDocument)) (attempt conflicts : ℕ) (s : PushState)
      → Sound attempt conflicts (push_attempt ports pending initial attempt conflicts s)
  unfolding push_attempt
  attempt-Sound none attempt conflicts s = read-Sound attempt conflicts s
  attempt-Sound (some current) zero conflicts s = current-Sound zero conflicts current s
  attempt-Sound (some current) (suc attempt) conflicts s = read-Sound (suc attempt) conflicts s

  abbrev Finishes : PushEnd → Type 0
  Finishes end =
      (outcome : Outcome PushError PushResult) × (end.0 ≡ some outcome)
      × (conflicts_of outcome ≤ ports.max_conflict_retries)

  after_turn-Finishes :
      (attempt conflicts : ℕ) (next : PushState → PushEnd) (r : Outcome PushError Turn × PushState)
      → conflicts ≤ ports.max_conflict_retries
      → Sound attempt conflicts r
      → (attempt < ports.max_conflict_retries → (s : PushState) → Finishes (next s))
      → Finishes (after_turn next r)
  after_turn-Finishes attempt conflicts next (thrown e, s) few sound rest =
      (thrown e, refl, omega arith)
  after_turn-Finishes attempt conflicts next (returned (ended result), s) few sound rest =
      (returned result, refl, omega arith)
  after_turn-Finishes attempt conflicts next (returned again, s) few sound rest = rest sound s

  loop-Finishes :
      (fuel : ℕ) (initial : Option (Option RemoteDocument)) (attempt : ℕ) (s : PushState)
      → attempt ≤ ports.max_conflict_retries
      → ports.max_conflict_retries < fuel + attempt
      → Finishes (push_progress ports pending fuel initial attempt attempt s)
  unfolding push_progress
  loop-Finishes zero initial attempt s few fuelled = absurd (omega arith)
  loop-Finishes (suc fuel) initial attempt s few fuelled =
      after_turn-Finishes attempt attempt _ (push_attempt ports pending initial attempt attempt s)
        few (attempt-Sound initial attempt attempt s)
        (λ left u.
          rw (suc_eq attempt)
            (loop-Finishes fuel initial (suc attempt) u (omega arith) (omega arith)))

-- With fuel for one turn more than the retries, the loop of a push ends, by a result or an error,
-- whatever the remote, the repository and the journal answer; and a result counts no more conflicts
-- than there are retries.
pub push_progress-ends :
    (ports : PushPorts) (pending : PendingProgressWrite) (initial : Option (Option RemoteDocument))
    (s : PushState)
    → (outcome : Outcome PushError PushResult) × ((push_progress ports pending
          (suc ports.max_conflict_retries)
          initial
          0
          0
          s).0
        ≡ some outcome)
      × (conflicts_of outcome ≤ ports.max_conflict_retries)
push_progress-ends ports pending initial s =
    loop-Finishes ports pending (suc ports.max_conflict_retries) initial 0 s (omega arith)
      (omega arith)
