-- ===== src/Workers/Tests.antt =====
-- A first pass over a quiet destination, and a bookmark that waits.
use omnia_reader.Prelude.{String, true, false, none, some, [], ◌∷◌}
use omnia_reader.Prelude.Action.{returned}
use omnia_reader.AutoSync.State.{git, bookmark, SyncWorkerResult}
use omnia_reader.Workers.Types.{SyncOperation, SyncWorkerOptions, empty_sync_result, Ports, Worker}
use omnia_reader.Workers.ChangeAware.{run_synchronization}
use omnia_reader.Workers.Checkpoints.{IsConfirmed}
use omnia_reader.Workers.Confirmed.{run_synchronization-IsConfirmed}
use omnia_reader.Workers.Coordinator.{
  books, schema, logical_books, progress, bookmarks, PhaseHistory, LibrarySyncWorkers,
  LibrarySyncResult, library_result, coordinate,
}
use omnia_reader.Workers.Order.{InOrder, coordinate-InOrder}

abbrev quiet : Ports String
quiet = record {
  selected = λ h. some git;
  has_revisions = true;
  pending = λ h. returned [];
  destination_revision = λ h. returned (some "42:main:3f2a");
  checkpoint = λ h. returned none;
  delegate = λ h. returned empty_sync_result;
  has_reading_state_worker = true;
  reading_state = λ operations h. returned empty_sync_result;
  aborted = λ h. none;
}

abbrev options : SyncWorkerOptions
options = record { full_reconciliation = false }

abbrev fresh : Worker String
fresh = record { scope = none; history = [] }

run_synchronization-IsConfirmed_example :
    IsConfirmed (run_synchronization quiet options fresh).1.history
run_synchronization-IsConfirmed_example = run_synchronization-IsConfirmed quiet options fresh tt

abbrev marked : SyncOperation String
marked = record {
  id = "operation-1";
  entity = bookmark;
  entity_id = "bookmark-1";
  is_delete = false;
  revision = 1;
  created_at = "2026-01-01T00:00:00.000Z";
  payload = "{}";
}

-- A bookmark waits, and the revision of the destination has no scope.
abbrev unscoped : Ports String
unscoped = record quiet {
  pending = λ h. returned (marked ∷ []);
  destination_revision = λ h. returned (some "3f2a");
}

abbrev pulled_one : SyncWorkerResult
pulled_one = record {
  pulled = 1;
  pushed = 2;
  conflicts = 0;
  rejected = 0;
  unchanged = false;
  maintenance_pending = false;
}

abbrev workers : LibrarySyncWorkers
workers = record {
  preflight_worker = none;
  schema_worker = λ h. returned empty_sync_result;
  logical_books_worker = some (λ h. returned pulled_one);
  books_worker = λ h. returned pulled_one;
  progress_worker = λ h. returned pulled_one;
  bookmarks_worker = some (λ h. returned pulled_one);
  annotations_worker = none;
  preferences_worker = none;
  cleanup_worker = none;
  is_aborted = λ h. none;
}

coordinate-InOrder_example : InOrder (coordinate workers []).1
coordinate-InOrder_example = coordinate-InOrder workers

abbrev ran : PhaseHistory
ran =
    (bookmarks, returned pulled_one)
    ∷ (progress, returned pulled_one)
    ∷ (logical_books, returned pulled_one)
    ∷ (books, returned pulled_one)
    ∷ (schema, returned empty_sync_result)
    ∷ []

abbrev pass_result : LibrarySyncResult
pass_result =
    library_result empty_sync_result empty_sync_result pulled_one pulled_one
      (record {
        progress_part = pulled_one;
        bookmarks_part = pulled_one;
        annotations_part = empty_sync_result;
        preferences_part = empty_sync_result;
      })
      empty_sync_result
