-- ===== src/Workers/Totals.antt =====
-- The totals of a complete pass.
use omnia_reader.Prelude.{ℕ, ◌+◌, ◌≡◌, refl, Option, none, some, [], ◌∷◌, arith}
use omnia_reader.Prelude.Action.{Outcome, returned, thrown, pure, ◌>>=◌, ◌>>◌, Ends, bind-Ends}
use omnia_reader.AutoSync.State.{SyncWorkerResult}
use omnia_reader.Workers.Types.{WorkerError, empty_sync_result}
use omnia_reader.Workers.Coordinator.{
  Phase, preflight, schema, books, logical_books, progress, bookmarks, annotations, preferences,
  cleanup, PhaseHistory, PhaseWorker, PhaseAction, LibrarySyncWorkers, LibrarySyncResult,
  ReadingStateResults, total, library_result, check_signal, raise_some, run_phase, run_optional,
  joined, run_reading_state, finish, after_reading_state, after_logical_books, after_books,
  after_schema, after_preflight, coordinate,
}

abbrev pub count_in : (SyncWorkerResult → ℕ) → Outcome WorkerError SyncWorkerResult → ℕ
count_in field (returned r) = field r
count_in field (thrown e) = 0

-- The sum of a field over the phases that returned.
abbrev pub tally : (SyncWorkerResult → ℕ) → PhaseHistory → ℕ
tally field [] = 0
tally field ((phase, o) ∷ h) = count_in field o + tally field h

abbrev Anything : PhaseHistory → Type 0
Anything h = Unit

module _ (workers : LibrarySyncWorkers) (field : SyncWorkerResult → ℕ)
    (idle : field empty_sync_result ≡ 0) where
  signal-tally :
      (n : ℕ) (h : PhaseHistory)
      → tally field h ≡ n
      → Ends (λ t u. tally field u ≡ n) Anything (check_signal workers h)
  signal-tally n h e = by_signal (workers.is_aborted h)
    where
      by_signal :
          (o : Option WorkerError) → Ends (λ t u. tally field u ≡ n) Anything (raise_some o h)
      by_signal none = e
      by_signal (some err) = tt

  phase-tally :
      (phase : Phase) (worker : PhaseWorker) (n : ℕ) (h : PhaseHistory)
      → tally field h ≡ n
      → Ends (λ r u. tally field u ≡ n + field r) Anything (run_phase workers phase worker h)
  phase-tally phase worker n h e = by_answer (worker h)
    where
      by_answer :
          (o : Outcome WorkerError SyncWorkerResult)
          → Ends (λ r u. tally field u ≡ n + field r) Anything (o, (phase, o) ∷ h)
      by_answer (returned r) = omega arith
      by_answer (thrown err) = tt

  optional-tally :
      (phase : Phase) (worker : Option PhaseWorker) (n : ℕ) (h : PhaseHistory)
      → tally field h ≡ n
      → Ends (λ r u. tally field u ≡ n + field r) Anything (run_optional workers phase worker h)
  optional-tally phase none n h e = omega arith
  optional-tally phase (some worker) n h e = phase-tally phase worker n h e

  optional-count :
      (phase : Phase) (worker : Option PhaseWorker) (h : PhaseHistory)
      → tally field (run_optional workers phase worker h).1
        ≡ tally field h + count_in field (run_optional workers phase worker h).0
  optional-count phase none h = omega arith
  optional-count phase (some worker) h = omega arith

  abbrev parts : ReadingStateResults → ℕ
  parts r =
      field r.progress_part
      + field r.bookmarks_part
      + field r.annotations_part
      + field r.preferences_part

  joined-tally :
      (a b c d : Outcome WorkerError SyncWorkerResult) (n : ℕ) (h : PhaseHistory)
      → tally field h
        ≡ n + count_in field a + count_in field b + count_in field c + count_in field d
      → Ends (λ r u. tally field u ≡ n + parts r) Anything (joined workers a b c d, h)
  joined-tally (returned a) (returned b) (returned c) (returned d) n h e = omega arith
  joined-tally (thrown x) b c d n h e = tt
  joined-tally (returned a) (thrown x) c d n h e = tt
  joined-tally (returned a) (returned b) (thrown x) d n h e = tt
  joined-tally (returned a) (returned b) (returned c) (thrown x) n h e = tt

  reading_state-tally :
      (n : ℕ) (h : PhaseHistory)
      → tally field h ≡ n
      → Ends (λ r u. tally field u ≡ n + parts r) Anything (run_reading_state workers h)
  unfolding run_reading_state
  reading_state-tally n h e =
      let first = run_phase workers progress workers.progress_worker h in
      let second = run_optional workers bookmarks workers.bookmarks_worker first.1 in
      let third = run_optional workers annotations workers.annotations_worker second.1 in
      let fourth = run_optional workers preferences workers.preferences_worker third.1 in
      let two = optional-count bookmarks workers.bookmarks_worker first.1 in
      let three = optional-count annotations workers.annotations_worker second.1 in
      let four = optional-count preferences workers.preferences_worker third.1 in
      joined-tally first.0 second.0 third.0 fourth.0 n fourth.1 (omega arith)

  -- A test of the signal, a phase that adds its count, and what follows it.
  stage-tally :
      {A B : Type 0} (R : B → PhaseHistory → Type 0) (count : A → ℕ) (n : ℕ) (m : PhaseAction A)
      (f : A → PhaseAction B) (h : PhaseHistory)
      → tally field h ≡ n
      → ((k : ℕ) (u : PhaseHistory)
          → tally field u ≡ k
          → Ends (λ a v. tally field v ≡ k + count a) Anything (m u))
      → ((a : A) (v : PhaseHistory) → tally field v ≡ n + count a → Ends R Anything (f a v))
      → Ends R Anything ((check_signal workers >> m >>= f) h)
  stage-tally R count n m f h e phase rest =
      bind-Ends (λ a v. tally field v ≡ n + count a) R Anything (check_signal workers >> m) f h
        (bind-Ends (λ t u. tally field u ≡ n) (λ a v. tally field v ≡ n + count a) Anything
          (check_signal workers) (λ t. m) h (signal-tally n h e) (λ t u. phase n u))
        rest

  module _ (measure : LibrarySyncResult → ℕ)
      (is_total : (a b c d : SyncWorkerResult) (r : ReadingStateResults) (e : SyncWorkerResult)
        → measure (library_result a b c d r e) ≡ total field a b c d r e) where
    abbrev Totalled : LibrarySyncResult → PhaseHistory → Type 0
    Totalled result u = measure result ≡ tally field u

    finish-tally :
        (a b c d : SyncWorkerResult) (r : ReadingStateResults) (e : SyncWorkerResult)
        (h : PhaseHistory)
        → tally field h ≡ field a + field b + field c + field d + parts r + field e
        → Ends Totalled Anything (finish workers a b c d r e h)
    unfolding finish total
    finish-tally a b c d r e h counted =
        let sum = is_total a b c d r e in
        bind-Ends (λ t u. tally field u ≡ field a + field b + field c + field d + parts r + field e)
          Totalled Anything (check_signal workers) (λ t. pure (library_result a b c d r e)) h
          (signal-tally _ h counted) (λ t u kept. omega arith)

    coordinate-tally : Ends Totalled Anything (coordinate workers [])
    unfolding coordinate after_preflight after_schema after_books after_logical_books
        after_reading_state
    coordinate-tally =
        stage-tally Totalled field 0 (run_optional workers preflight workers.preflight_worker)
          (after_preflight workers) [] refl (optional-tally preflight workers.preflight_worker)
          λ a h1 d1.
            stage-tally Totalled field _ (run_phase workers schema workers.schema_worker)
              (after_schema workers a) h1 d1 (phase-tally schema workers.schema_worker)
              λ b h2 d2.
                stage-tally Totalled field _ (run_phase workers books workers.books_worker)
                  (after_books workers a b) h2 d2 (phase-tally books workers.books_worker)
                  λ c h3 d3.
                    stage-tally Totalled field _
                      (run_optional workers logical_books workers.logical_books_worker)
                      (after_logical_books workers a b c) h3 d3
                      (optional-tally logical_books workers.logical_books_worker)
                      λ d h4 d4.
                        stage-tally Totalled parts _ (run_reading_state workers)
                          (after_reading_state workers a b c d) h4 d4 reading_state-tally
                          λ r h5 d5.
                            stage-tally Totalled field _
                              (run_optional workers cleanup workers.cleanup_worker)
                              (finish workers a b c d r) h5 d5
                              (optional-tally cleanup workers.cleanup_worker)
                              (λ e h6 d6. finish-tally a b c d r e h6 (omega arith))

-- The totals of a complete pass that returned are the sums over the phases that it ran.
pub coordinate-totals :
    (workers : LibrarySyncWorkers) (result : LibrarySyncResult) (h : PhaseHistory)
    → coordinate workers [] ≡ (returned result, h)
    → (result.totals.pulled ≡ tally (λ r. r.pulled) h)
      × (result.totals.pushed ≡ tally (λ r. r.pushed) h)
      × (result.totals.conflicts ≡ tally (λ r. r.conflicts) h)
      × (result.totals.rejected ≡ tally (λ r. r.rejected) h)
unfolding library_result
coordinate-totals workers result h ran = (
  rw ran at
      (coordinate-tally workers (λ r. r.pulled) refl (λ l. l.totals.pulled) (λ a b c d r e. refl)),
  rw ran at
      (coordinate-tally workers (λ r. r.pushed) refl (λ l. l.totals.pushed) (λ a b c d r e. refl)),
  rw ran at (
      coordinate-tally workers (λ r. r.conflicts) refl (λ l. l.totals.conflicts)
        (λ a b c d r e. refl)),
  rw ran at (
      coordinate-tally workers (λ r. r.rejected) refl (λ l. l.totals.rejected)
        (λ a b c d r e. refl)),
)
