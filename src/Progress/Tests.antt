-- ===== src/Progress/Tests.antt =====
-- A tablet's progress in two versions, and a push that meets nothing at the destination.
use omnia_reader.Prelude.{ℕ, suc, String, ◌≡◌, ◌≤◌, none, some, [], ◌∷◌, max}
use omnia_reader.Prelude.Action.{Outcome, returned, thrown}
use omnia_reader.Prelude.CodeUnits.Laws.{code_unit_collation}
use omnia_reader.LogicalBook.Types.{epub}
use omnia_reader.Progress.Documents.{ReadingProgress, ProgressPort, merge_progress_document}
use omnia_reader.Progress.Push.{
  PendingProgressWrite, sync_conflict, PushError, PushResult, PushPorts, PushState, push_progress,
}
use omnia_reader.Progress.Termination.{push_progress-ends, conflicts_of}
use omnia_reader.Progress.Merge.{merge_progress_document_comm}

abbrev version : String → ℕ → ReadingProgress
version time furthest = record {
  book_id = "sha256:00";
  format = epub;
  device_id = "tablet";
  locator = record {
    href = "chapter-1.xhtml";
    media_type = "application/xhtml+xml";
    title = none;
    locations = none;
    text = none;
  };
  furthest_total_progression = furthest;
  updated_at = time;
  app_version = "1.0.0";
}

abbrev earlier : ReadingProgress
earlier = version "2026-01-01T08:00:00.000Z" 700

abbrev later : ReadingProgress
later = version "2026-01-01T09:00:00.000Z" 300

abbrev documents : ProgressPort
documents = record {
  coll = code_unit_collation;
  encode_uri_component = λ s. s;
  stringify = λ p. p.updated_at;
}

merge_progress_document_comm_example :
    (merge_progress_document documents earlier later
      ≡ merge_progress_document documents later earlier)
    × ((merged : ReadingProgress)
        → merge_progress_document documents earlier later ≡ some merged
        → max 700 300 ≤ merged.furthest_total_progression)
merge_progress_document_comm_example =
    merge_progress_document_comm documents earlier later (λ time text. cc)

-- Every write meets a conflict.
abbrev busy : PushPorts
busy = record {
  documents = documents;
  read_remote = λ path h. returned none;
  write_remote = λ request h. thrown sync_conflict;
  save_document = λ p h. returned tt;
  acknowledge = λ ids h. returned tt;
  parse = λ text. none;
  pretty = λ p. p.updated_at;
  max_conflict_retries = 2;
  retry_delay_ms = 100;
}

abbrev waiting : PendingProgressWrite
waiting = record { progress = later; operation_ids = "operation-1" ∷ [] }

abbrev idle : PushState
idle = record { known = []; history = [] }

push_progress-ends_example :
    (outcome : Outcome PushError PushResult) × ((push_progress busy waiting
        (suc busy.max_conflict_retries)
        none
        0
        0
        idle).0
      ≡ some outcome)
    × (conflicts_of outcome ≤ busy.max_conflict_retries)
push_progress-ends_example = push_progress-ends busy waiting none idle
