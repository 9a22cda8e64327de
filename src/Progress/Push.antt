-- ===== src/Progress/Push.antt =====
-- `pushProgress`: one document is written, and tried again while the destination reports conflicts.
-- The answers of the remote, the repository and the journal are any function of the history.
use omnia_reader.Prelude.{
  ℕ, zero, suc, ◌+◌, ◌*◌, ◌^◌, String, Bool, true, false, not, ◌==◌, ◌&&◌, Option, none, some, List,
  ◌∷◌, max, length, leb, if◌then◌else◌,
}
use omnia_reader.Prelude.JsMap.{JsMap, put, remove}
use omnia_reader.Prelude.Text.{concat}
use omnia_reader.Prelude.Action.{Outcome, Action, returned, thrown, pure, raise, ◌>>=◌, ◌>>◌}
use omnia_reader.Progress.Documents.{
  ReadingProgress, ProgressPort, progress_document_path, merge_progress_document,
}

pub record RemoteDocument : Type 0 where
  pub path : String
  pub content : String
  pub revision : String

pub record DocumentWriteRequest : Type 0 where
  pub path : String
  pub content : String
  pub expected_revision : Option String
  pub message : String

-- `latestOperation` is not read here.
pub record PendingProgressWrite : Type 0 where
  pub progress : ReadingProgress
  pub operation_ids : List String

-- `SyncConflictError`, the TypeError of a merge of different documents, and any other error
pub data PushError : Type 0 where
  sync_conflict different_documents : PushError
  other_error : String → PushError

pub record PushResult : Type 0 where
  pub pushed : Bool
  pub conflicts : ℕ
  pub rejected : ℕ

pub data PushEvent : Type 0 where
  was_read : Outcome PushError (Option RemoteDocument) → PushEvent
  was_written : DocumentWriteRequest → Outcome PushError RemoteDocument → PushEvent
  was_saved : ReadingProgress → Outcome PushError Unit → PushEvent
  was_acknowledged : List String → Outcome PushError Unit → PushEvent
  waited : ℕ → PushEvent

abbrev pub PushHistory : Type 0
PushHistory = List PushEvent

-- `parse` is `parseProgressFile` and `pretty` is `JSON.stringify` with two spaces.
pub record PushPorts : Type 0 where
  pub documents : ProgressPort
  pub read_remote : String → PushHistory → Outcome PushError (Option RemoteDocument)
  pub write_remote : DocumentWriteRequest → PushHistory → Outcome PushError RemoteDocument
  pub save_document : ReadingProgress → PushHistory → Outcome PushError Unit
  pub acknowledge : List String → PushHistory → Outcome PushError Unit
  pub parse : String → Option ReadingProgress
  pub pretty : ReadingProgress → String
  pub max_conflict_retries : ℕ
  pub retry_delay_ms : ℕ

-- `knownRemoteDocuments`, and what has happened, the last first
pub record PushState : Type 0 where
  pub known : JsMap RemoteDocument
  pub history : PushHistory

abbrev pub PushAction : Type 0 → Type 0
PushAction A = Action PushError PushState A

-- What one turn of the loop comes to.
pub data Turn : Type 0 where
  ended : PushResult → Turn
  again : Turn

abbrev pub default_max_conflict_retries : ℕ
default_max_conflict_retries = 2

abbrev pub default_retry_delay_ms : ℕ
default_retry_delay_ms = 100

-- What one call writes down.
abbrev pub call :
    {A : Type 0}
    → (Outcome PushError A → PushEvent)
    → (PushHistory → Outcome PushError A)
    → PushAction A
call event answer s =
    let given = answer s.history in
    (given, record { known = s.known; history = event given ∷ s.history })

abbrev pub set_known : String → Option RemoteDocument → PushAction Unit
set_known path none s = (returned tt, record { known = remove path s.known; history = s.history })
set_known path (some document) s =
    (returned tt, record { known = put path document s.known; history = s.history })

abbrev pub PushEnd : Type 0
PushEnd = Option (Outcome PushError PushResult) × PushState

abbrev pub after_turn : (PushState → PushEnd) → Outcome PushError Turn × PushState → PushEnd
after_turn next (thrown e, s) = (some (thrown e), s)
after_turn next (returned (ended result), s) = (some (returned result), s)
after_turn next (returned again, s) = next s

module _ (ports : PushPorts) (pending : PendingProgressWrite) where
  abbrev pub pending_path : String
  pending_path = progress_document_path ports.documents pending.progress

  -- What follows a write, inside the `try` block.
  unfoldable pub save_and_acknowledge : ReadingProgress → PushResult → PushAction Turn
  save_and_acknowledge progress result =
      call (was_saved progress) (ports.save_document progress)
      >> call (was_acknowledged pending.operation_ids) (ports.acknowledge pending.operation_ids)
      >> pure (ended result)

  abbrev pub write_request : Option RemoteDocument → ReadingProgress → DocumentWriteRequest
  write_request current progress = record {
    path = pending_path;
    content = concat (ports.pretty progress) "\n";
    expected_revision = elim current [ none ↦ none | some document ↦ some document.revision ];
    message = concat "Update reading progress for " progress.book_id;
  }

  unfoldable pub write_document : Option RemoteDocument → ReadingProgress → ℕ → PushAction Turn
  unfolding save_and_acknowledge
  write_document current progress conflicts =
      call (was_written (write_request current progress))
        (ports.write_remote (write_request current progress))
      >>= λ written.
          set_known pending_path (some written)
          >> save_and_acknowledge progress
              (record { pushed = true; conflicts = conflicts; rejected = 0 })

  -- The `catch`: a conflict is tried again, as long as retries are left.
  unfoldable pub caught :
      ℕ → Outcome PushError Turn × PushState → Outcome PushError Turn × PushState
  caught attempt (returned turn, s) = (returned turn, s)
  caught attempt (thrown sync_conflict, s) =
      if leb ports.max_conflict_retries attempt then (thrown sync_conflict, s) else (
        returned again,
        record {
          known = s.known;
          history = waited (ports.retry_delay_ms * 2 ^ attempt) ∷ s.history;
        },
      )
  caught attempt (thrown e, s) = (thrown e, s)

  unfoldable pub same_content : Option RemoteDocument → ReadingProgress → Bool
  same_content none progress = false
  same_content (some document) progress = document.content == concat (ports.pretty progress) "\n"

  unfoldable pub push_merged : ℕ → ℕ → Option RemoteDocument → ReadingProgress → PushAction Turn
  unfolding same_content save_and_acknowledge write_document caught
  push_merged attempt conflicts current progress s =
      if same_content current progress
      then (set_known pending_path current
            >> save_and_acknowledge progress
                (record { pushed = false; conflicts = conflicts; rejected = 0 }))
          s
      else caught attempt (write_document current progress conflicts s)

  abbrev pub rejected_result : ℕ → PushResult
  rejected_result conflicts = record {
    pushed = false;
    conflicts = conflicts;
    rejected = max 1 (length pending.operation_ids);
  }

  abbrev pub is_same_document : ReadingProgress → Bool
  is_same_document remote =
      remote.book_id == pending.progress.book_id && remote.device_id == pending.progress.device_id

  unfoldable pub push_parsed :
      ℕ → ℕ → Option RemoteDocument → Option ReadingProgress → PushAction Turn
  unfolding push_merged
  push_parsed attempt conflicts none remote = push_merged attempt conflicts none pending.progress
  push_parsed attempt conflicts (some document) none = pure (ended (rejected_result conflicts))
  push_parsed attempt conflicts (some document) (some remote) =
      if not (is_same_document remote)
      then pure (ended (rejected_result conflicts))
      else elim (merge_progress_document ports.documents remote pending.progress) [
        | none ↦ raise different_documents
        | some progress ↦ push_merged attempt conflicts (some document) progress
      ]

  unfoldable pub push_current : ℕ → ℕ → Option RemoteDocument → PushAction Turn
  unfolding push_parsed
  push_current attempt conflicts current =
      set_known pending_path current
      >> push_parsed attempt conflicts current
          (elim current [ none ↦ none | some document ↦ ports.parse document.content ])

  -- `undefined` is `none`, and `null` is `some none`.
  unfoldable pub push_attempt : Option (Option RemoteDocument) → ℕ → ℕ → PushAction Turn
  unfolding push_current
  push_attempt (some initial) zero conflicts = push_current zero conflicts initial
  push_attempt _ attempt conflicts =
      call was_read (ports.read_remote pending_path) >>= push_current attempt conflicts

  -- The loop. `none` is that the fuel has run out.
  unfoldable pub push_progress : ℕ → Option (Option RemoteDocument) → ℕ → ℕ → PushState → PushEnd
  unfolding push_attempt
  push_progress zero initial attempt conflicts s = (none, s)
  push_progress (suc fuel) initial attempt conflicts s =
      after_turn (push_progress fuel initial (suc attempt) (conflicts + 1))
        (push_attempt initial attempt conflicts s)
