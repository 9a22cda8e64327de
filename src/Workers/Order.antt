-- ===== src/Workers/Order.antt =====
-- A phase of a complete pass starts when every phase before it has returned.
use omnia_reader.Prelude.{
  ℕ, suc, ◌≤◌, ◌<◌, ◌≡◌, ◌⊎◌, inl, inr, refl, Bool, true, false, Option, none, some, [], ◌∷◌, All,
  arith,
}
use omnia_reader.Prelude.Action.{Outcome, returned, thrown, pure, ◌>>=◌, ◌>>◌, Ends, bind-Ends}
use omnia_reader.AutoSync.State.{SyncWorkerResult}
use omnia_reader.Workers.Types.{WorkerError}
use omnia_reader.Workers.Coordinator.{
  Phase, preflight, schema, books, logical_books, progress, bookmarks, annotations, preferences,
  cleanup, PhaseHistory, PhaseWorker, PhaseAction, LibrarySyncWorkers, ReadingStateResults,
  check_signal, raise_some, run_phase, run_optional, joined, run_reading_state, finish,
  after_reading_state, after_logical_books, after_books, after_schema, after_preflight, coordinate,
}

abbrev pub group : Phase → ℕ
group preflight = 0
group schema = 1
group books = 2
group logical_books = 3
group progress = 4
group bookmarks = 4
group annotations = 4
group preferences = 4
group cleanup = 5

abbrev pub has_returned : Outcome WorkerError SyncWorkerResult → Bool
has_returned (returned r) = true
has_returned (thrown e) = false

-- A phase that ended before `phase` started is of its group, or of an earlier one and returned.
abbrev pub Precedes : Phase → Phase × Outcome WorkerError SyncWorkerResult → Type 0
Precedes phase e =
    (group e.0 ≡ group phase) ⊎ ((group e.0 < group phase) × (has_returned e.1 ≡ true))

abbrev pub InOrder : PhaseHistory → Type 0
InOrder [] = Unit
InOrder ((phase, o) ∷ h) = All (Precedes phase) h × InOrder h

-- All phases were of groups below, and returned.
abbrev Done : ℕ → PhaseHistory → Type 0
Done g h = All (λ e. (group e.0 < g) × (has_returned e.1 ≡ true)) h × InOrder h

Done-precede :
    (g : ℕ) (phase : Phase) (h : PhaseHistory) → Done g h → g ≤ group phase → All (Precedes phase) h
Done-precede g phase [] d le = tt
Done-precede g phase (e ∷ h) d le =
    (inr (omega arith, d.0.0.1), Done-precede g phase h (d.0.1, d.1.1) le)

Done-later : (g k : ℕ) (h : PhaseHistory) → g ≤ k → Done g h → Done k h
Done-later g k [] le d = d
Done-later g k (e ∷ h) le d =
    (((omega arith, d.0.0.1), (Done-later g k h le (d.0.1, d.1.1)).0), d.1)

module _ (workers : LibrarySyncWorkers) where
  signal-Done :
      (g : ℕ) (h : PhaseHistory)
      → Done g h
      → Ends (λ t u. Done g u) InOrder (check_signal workers h)
  signal-Done g h d = by_signal (workers.is_aborted h)
    where
      by_signal : (o : Option WorkerError) → Ends (λ t u. Done g u) InOrder (raise_some o h)
      by_signal none = d
      by_signal (some e) = d.1

  phase-Done :
      (phase : Phase) (worker : PhaseWorker) (h : PhaseHistory)
      → Done (group phase) h
      → Ends (λ r u. Done (suc (group phase)) u) InOrder (run_phase workers phase worker h)
  phase-Done phase worker h d = by_answer (worker h)
    where
      by_answer :
          (o : Outcome WorkerError SyncWorkerResult)
          → Ends (λ r u. Done (suc (group phase)) u) InOrder (o, (phase, o) ∷ h)
      by_answer (returned r) = (
        ((omega arith, refl), (Done-later (group phase) (suc (group phase)) h (omega arith) d).0),
        (Done-precede (group phase) phase h d (omega arith), d.1),
      )
      by_answer (thrown e) = (Done-precede (group phase) phase h d (omega arith), d.1)

  optional-Done :
      (phase : Phase) (worker : Option PhaseWorker) (h : PhaseHistory)
      → Done (group phase) h
      → Ends (λ r u. Done (suc (group phase)) u) InOrder (run_optional workers phase worker h)
  optional-Done phase none h d = Done-later (group phase) (suc (group phase)) h (omega arith) d
  optional-Done phase (some worker) h d = phase-Done phase worker h d

  -- The reading state's workers start together, after the same phases.
  optional-precede :
      (phase later : Phase) (worker : Option PhaseWorker) (h : PhaseHistory)
      → group phase ≡ group later
      → All (Precedes later) h
      → All (Precedes later) (run_optional workers phase worker h).1
  optional-precede phase later none h same d = d
  optional-precede phase later (some worker) h same d = (inl same, d)

  optional-InOrder :
      (phase : Phase) (worker : Option PhaseWorker) (h : PhaseHistory)
      → All (Precedes phase) h
      → InOrder h
      → InOrder (run_optional workers phase worker h).1
  optional-InOrder phase none h before ordered = ordered
  optional-InOrder phase (some worker) h before ordered = (before, ordered)

  -- What holds of the events while the reading state's workers have returned.
  abbrev AllDone : PhaseHistory → Type 0
  AllDone h = All (λ e. (group e.0 < 5) × (has_returned e.1 ≡ true)) h

  optional-AllDone :
      (phase : Phase) (worker : Option PhaseWorker) (h : PhaseHistory)
      → group phase < 5
      → has_returned (run_optional workers phase worker h).0 ≡ true
      → AllDone h
      → AllDone (run_optional workers phase worker h).1
  optional-AllDone phase none h low ok d = d
  optional-AllDone phase (some worker) h low ok d = ((low, ok), d)

  joined-Ends :
      (a b c d : Outcome WorkerError SyncWorkerResult) (h : PhaseHistory)
      → InOrder h
      → (has_returned a ≡ true
          → has_returned b ≡ true
          → has_returned c ≡ true
          → has_returned d ≡ true
          → AllDone h)
      → Ends (λ r u. Done 5 u) InOrder (joined workers a b c d, h)
  joined-Ends (returned a) (returned b) (returned c) (returned d) h ordered all_done =
      (all_done refl refl refl refl, ordered)
  joined-Ends (thrown e) b c d h ordered all_done = ordered
  joined-Ends (returned a) (thrown e) c d h ordered all_done = ordered
  joined-Ends (returned a) (returned b) (thrown e) d h ordered all_done = ordered
  joined-Ends (returned a) (returned b) (returned c) (thrown e) h ordered all_done = ordered

  reading_state-Done :
      (h : PhaseHistory) → Done 4 h → Ends (λ r u. Done 5 u) InOrder (run_reading_state workers h)
  unfolding run_reading_state
  reading_state-Done h d =
      let first = run_phase workers progress workers.progress_worker h in
      let second = run_optional workers bookmarks workers.bookmarks_worker first.1 in
      let third = run_optional workers annotations workers.annotations_worker second.1 in
      let fourth = run_optional workers preferences workers.preferences_worker third.1 in
      let before1 : All (Precedes bookmarks) first.1 =
        (inl refl, Done-precede 4 progress h d (omega arith)) in
      let before2 =
        optional-precede bookmarks annotations workers.bookmarks_worker first.1 refl before1 in
      let before3 =
        optional-precede annotations preferences workers.annotations_worker second.1 refl before2 in
      joined-Ends first.0 second.0 third.0 fourth.0 fourth.1
        (optional-InOrder preferences workers.preferences_worker third.1 before3 (
          optional-InOrder annotations workers.annotations_worker second.1 before2 (
            optional-InOrder bookmarks workers.bookmarks_worker first.1 before1
              (Done-precede 4 progress h d (omega arith), d.1))))
        (λ a b c e.
          optional-AllDone preferences workers.preferences_worker third.1 (omega arith) e (
            optional-AllDone annotations workers.annotations_worker second.1 (omega arith) c (
              optional-AllDone bookmarks workers.bookmarks_worker first.1 (omega arith) b
                ((omega arith, a), (Done-later 4 5 h (omega arith) d).0))))

  abbrev Ordered : {A : Type 0} → Outcome WorkerError A × PhaseHistory → Type 0
  Ordered = Ends (λ a u. InOrder u) InOrder

  -- A test of the signal, a phase, and what follows it.
  stage-Ordered :
      {A B : Type 0} (g k : ℕ) (m : PhaseAction A) (f : A → PhaseAction B) (h : PhaseHistory)
      → Done g h
      → ((u : PhaseHistory) → Done g u → Ends (λ a v. Done k v) InOrder (m u))
      → ((a : A) (v : PhaseHistory) → Done k v → Ordered (f a v))
      → Ordered ((check_signal workers >> m >>= f) h)
  stage-Ordered g k m f h d phase rest =
      bind-Ends (λ a v. Done k v) (λ b w. InOrder w) InOrder (check_signal workers >> m) f h
        (bind-Ends (λ t u. Done g u) (λ a v. Done k v) InOrder (check_signal workers) (λ t. m) h
          (signal-Done g h d) (λ t u. phase u))
        rest

  finish-Ordered :
      (a b c d : SyncWorkerResult) (r : ReadingStateResults) (e : SyncWorkerResult)
      (h : PhaseHistory)
      → Done 6 h
      → Ordered (finish workers a b c d r e h)
  unfolding finish
  finish-Ordered a b c d r e h done =
      bind-Ends (λ t u. Done 6 u) (λ x w. InOrder w) InOrder (check_signal workers) (λ t. pure _) h
        (signal-Done 6 h done) (λ t u kept. kept.1)

  coordinate-Ordered : (h : PhaseHistory) → Done 0 h → Ordered (coordinate workers h)
  unfolding coordinate after_preflight after_schema after_books after_logical_books
      after_reading_state
  coordinate-Ordered h none_yet =
      stage-Ordered 0 1 (run_optional workers preflight workers.preflight_worker)
        (after_preflight workers) h none_yet (optional-Done preflight workers.preflight_worker)
        λ a h1 d1.
          stage-Ordered 1 2 (run_phase workers schema workers.schema_worker)
            (after_schema workers a) h1 d1 (phase-Done schema workers.schema_worker)
            λ b h2 d2.
              stage-Ordered 2 3 (run_phase workers books workers.books_worker)
                (after_books workers a b) h2 d2 (phase-Done books workers.books_worker)
                λ c h3 d3.
                  stage-Ordered 3 4
                    (run_optional workers logical_books workers.logical_books_worker)
                    (after_logical_books workers a b c) h3 d3
                    (optional-Done logical_books workers.logical_books_worker)
                    λ d h4 d4.
                      stage-Ordered 4 5 (run_reading_state workers)
                        (after_reading_state workers a b c d) h4 d4 reading_state-Done
                        λ r h5 d5.
                          stage-Ordered 5 6 (run_optional workers cleanup workers.cleanup_worker)
                            (finish workers a b c d r) h5 d5
                            (optional-Done cleanup workers.cleanup_worker)
                            (finish-Ordered a b c d r)

Ordered-history :
    {A : Type 0} (workers : LibrarySyncWorkers) (r : Outcome WorkerError A × PhaseHistory)
    → Ordered workers r
    → InOrder r.1
Ordered-history workers (returned a, h) ordered = ordered
Ordered-history workers (thrown e, h) ordered = ordered

-- However a complete pass ends, the phases that had ended when one of its phases started were of the
-- same group or of earlier ones, and those of earlier groups had returned. The groups are the
-- preflight, the schema, the books, the logical books, the reading state's four, the cleanup.
pub coordinate-InOrder : (workers : LibrarySyncWorkers) → InOrder (coordinate workers []).1
coordinate-InOrder workers =
    Ordered-history workers (coordinate workers []) (coordinate-Ordered workers [] (tt, tt))
