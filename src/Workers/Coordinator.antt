-- ===== src/Workers/Coordinator.antt =====
-- `LibrarySyncCoordinator`: the order of the workers of a complete pass, and the sum of their results.
use omnia_reader.Prelude.{ℕ, ◌+◌, false, Option, none, some, List, ◌∷◌}
use omnia_reader.Prelude.Action.{Outcome, Action, returned, thrown, pure, ◌>>=◌, ◌>>◌}
use omnia_reader.AutoSync.State.{SyncWorkerResult}
use omnia_reader.Workers.Types.{WorkerError, empty_sync_result}

pub data Phase : Type 0 where
  preflight schema books logical_books progress bookmarks annotations preferences cleanup : Phase

-- The phases that have ended, the last one first.
abbrev pub PhaseHistory : Type 0
PhaseHistory = List (Phase × Outcome WorkerError SyncWorkerResult)

-- A worker's answer is any function of what went before.
abbrev pub PhaseWorker : Type 0
PhaseWorker = PhaseHistory → Outcome WorkerError SyncWorkerResult

pub record LibrarySyncWorkers : Type 0 where
  pub preflight_worker : Option PhaseWorker
  pub schema_worker : PhaseWorker
  pub logical_books_worker : Option PhaseWorker
  pub books_worker : PhaseWorker
  pub progress_worker : PhaseWorker
  pub bookmarks_worker : Option PhaseWorker
  pub annotations_worker : Option PhaseWorker
  pub preferences_worker : Option PhaseWorker
  pub cleanup_worker : Option PhaseWorker
  pub is_aborted : PhaseHistory → Option WorkerError

pub record LibrarySyncResult : Type 0 where
  pub totals : SyncWorkerResult
  pub schema_result : SyncWorkerResult
  pub books_result : SyncWorkerResult
  pub logical_books_result : SyncWorkerResult
  pub progress_result : SyncWorkerResult
  pub bookmarks_result : SyncWorkerResult
  pub annotations_result : SyncWorkerResult
  pub preferences_result : SyncWorkerResult

abbrev pub PhaseAction : Type 0 → Type 0
PhaseAction A = Action WorkerError PhaseHistory A

-- The results of `Promise.all`.
pub record ReadingStateResults : Type 0 where
  pub progress_part : SyncWorkerResult
  pub bookmarks_part : SyncWorkerResult
  pub annotations_part : SyncWorkerResult
  pub preferences_part : SyncWorkerResult

unfoldable pub total :
    (SyncWorkerResult → ℕ)
    → SyncWorkerResult
    → SyncWorkerResult
    → SyncWorkerResult
    → SyncWorkerResult
    → ReadingStateResults
    → SyncWorkerResult
    → ℕ
total field preflight_result schema_result books_result logical_result reading cleanup_result =
    field preflight_result
    + field schema_result
    + field logical_result
    + field books_result
    + field reading.progress_part
    + field reading.bookmarks_part
    + field reading.annotations_part
    + field reading.preferences_part
    + field cleanup_result

unfoldable pub library_result :
    SyncWorkerResult
    → SyncWorkerResult
    → SyncWorkerResult
    → SyncWorkerResult
    → ReadingStateResults
    → SyncWorkerResult
    → LibrarySyncResult
unfolding total
library_result first schema_result books_result logical_result reading cleanup_result =
    let sum : (SyncWorkerResult → ℕ) → ℕ =
      λ field. total field first schema_result books_result logical_result reading cleanup_result in
    record {
      totals = record {
        pulled = sum (λ r. r.pulled);
        pushed = sum (λ r. r.pushed);
        conflicts = sum (λ r. r.conflicts);
        rejected = sum (λ r. r.rejected);
        unchanged = false;
        maintenance_pending = logical_result.maintenance_pending;
      };
      schema_result = schema_result;
      books_result = books_result;
      logical_books_result = logical_result;
      progress_result = reading.progress_part;
      bookmarks_result = reading.bookmarks_part;
      annotations_result = reading.annotations_part;
      preferences_result = reading.preferences_part;
    }

abbrev pub raise_some : Option WorkerError → PhaseAction Unit
raise_some none h = (returned tt, h)
raise_some (some e) h = (thrown e, h)

module _ (workers : LibrarySyncWorkers) where
  abbrev pub check_signal : PhaseAction Unit
  check_signal h = raise_some (workers.is_aborted h) h

  abbrev pub run_phase : Phase → PhaseWorker → PhaseAction SyncWorkerResult
  run_phase phase worker h = (worker h, (phase, worker h) ∷ h)

  abbrev pub run_optional : Phase → Option PhaseWorker → PhaseAction SyncWorkerResult
  run_optional phase none h = (returned empty_sync_result, h)
  run_optional phase (some worker) h = run_phase phase worker h

  -- All four are started before any answer is looked at. Of several errors the first in this order is
  -- passed on.
  abbrev pub joined :
      Outcome WorkerError SyncWorkerResult
      → Outcome WorkerError SyncWorkerResult
      → Outcome WorkerError SyncWorkerResult
      → Outcome WorkerError SyncWorkerResult
      → Outcome WorkerError ReadingStateResults
  joined (returned a) (returned b) (returned c) (returned d) =
      returned (record {
        progress_part = a;
        bookmarks_part = b;
        annotations_part = c;
        preferences_part = d;
      })
  joined (thrown e) _ _ _ = thrown e
  joined (returned a) (thrown e) _ _ = thrown e
  joined (returned a) (returned b) (thrown e) _ = thrown e
  joined (returned a) (returned b) (returned c) (thrown e) = thrown e

  unfoldable pub run_reading_state : PhaseAction ReadingStateResults
  run_reading_state h =
      let (a, h1) = run_phase progress workers.progress_worker h in
      let (b, h2) = run_optional bookmarks workers.bookmarks_worker h1 in
      let (c, h3) = run_optional annotations workers.annotations_worker h2 in
      let (d, h4) = run_optional preferences workers.preferences_worker h3 in (joined a b c d, h4)

  unfoldable pub finish :
      SyncWorkerResult
      → SyncWorkerResult
      → SyncWorkerResult
      → SyncWorkerResult
      → ReadingStateResults
      → SyncWorkerResult
      → PhaseAction LibrarySyncResult
  unfolding library_result
  finish first schema_result books_result logical_result reading cleanup_result =
      check_signal
      >> pure
          (library_result first schema_result books_result logical_result reading cleanup_result)

  unfoldable pub after_reading_state :
      SyncWorkerResult
      → SyncWorkerResult
      → SyncWorkerResult
      → SyncWorkerResult
      → ReadingStateResults
      → PhaseAction LibrarySyncResult
  unfolding finish
  after_reading_state first schema_result books_result logical_result reading =
      check_signal
      >> run_optional cleanup workers.cleanup_worker
      >>= finish first schema_result books_result logical_result reading

  unfoldable pub after_logical_books :
      SyncWorkerResult
      → SyncWorkerResult
      → SyncWorkerResult
      → SyncWorkerResult
      → PhaseAction LibrarySyncResult
  unfolding run_reading_state after_reading_state
  after_logical_books first schema_result books_result logical_result =
      check_signal
      >> run_reading_state
      >>= after_reading_state first schema_result books_result logical_result

  unfoldable pub after_books :
      SyncWorkerResult → SyncWorkerResult → SyncWorkerResult → PhaseAction LibrarySyncResult
  unfolding after_logical_books
  after_books first schema_result books_result =
      check_signal
      >> run_optional logical_books workers.logical_books_worker
      >>= after_logical_books first schema_result books_result

  unfoldable pub after_schema : SyncWorkerResult → SyncWorkerResult → PhaseAction LibrarySyncResult
  unfolding after_books
  after_schema first schema_result =
      check_signal >> run_phase books workers.books_worker >>= after_books first schema_result

  unfoldable pub after_preflight : SyncWorkerResult → PhaseAction LibrarySyncResult
  unfolding after_schema
  after_preflight first =
      check_signal >> run_phase schema workers.schema_worker >>= after_schema first

  unfoldable pub coordinate : PhaseAction LibrarySyncResult
  unfolding after_preflight
  coordinate = check_signal >> run_optional preflight workers.preflight_worker >>= after_preflight
