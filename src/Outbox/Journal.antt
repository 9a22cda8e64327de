-- ===== src/Outbox/Journal.antt =====
-- The two stores are maps, and the journal over both is the program's. Transactions succeed, but for
-- the acknowledgement in `append`, whose failure the code passes over.
use omnia_reader.Prelude.{
  ℕ, ◌+◌, String, Bool, false, not, ◌==◌, Option, none, some, List, [], ◌∷◌, ◌++◌, map, keep,
  or_else, is_some, if◌then◌else◌,
}
use omnia_reader.Prelude.Collation.{Sign, then_by, sort, Collation}
use omnia_reader.Prelude.JsMap.{JsMap, get, put, remove, values}
use omnia_reader.Prelude.Text.{concat}
use omnia_reader.AutoSync.State.{
  SyncActivityKind, book, progress, bookmark, annotation, preference, logical_book_change,
}
use omnia_reader.Workers.Types.{SyncOperation}
use omnia_reader.LogicalBook.Types.{LogicalBookChange}
use omnia_reader.Gateway.Requests.{after_prefix}

-- A payload that passes `isLogicalBookChange`, or any other
pub data Payload : Type 0 where
  change : LogicalBookChange → Payload
  unknown : String → Payload

abbrev pub Operation : Type 0
Operation = SyncOperation Payload

pub record NewSyncOperation : Type 0 where
  pub entity : SyncActivityKind
  pub entity_id : String
  pub is_delete : Bool
  pub payload : Payload

pub record Stores : Type 0 where
  pub operations : JsMap Operation
  pub revisions : JsMap ℕ
  pub outbox : JsMap LogicalBookChange

abbrev pub outbox_operation_prefix : String
outbox_operation_prefix = "logical-book-outbox:"

abbrev pub entity_name : SyncActivityKind → String
entity_name book = "book"
entity_name progress = "progress"
entity_name bookmark = "bookmark"
entity_name annotation = "annotation"
entity_name preference = "preference"
entity_name logical_book_change = "logical-book-change"

-- `crypto.randomUUID()` and the time give the id and the time.
unfoldable pub stored_operation : String → String → ℕ → NewSyncOperation → Operation
stored_operation uuid now revision input = record {
  id = uuid;
  entity = input.entity;
  entity_id = input.entity_id;
  is_delete = input.is_delete;
  revision = revision;
  created_at = now;
  payload = input.payload;
}

-- `IndexedDbOperationJournal.append`
unfoldable pub append_operation : String → String → NewSyncOperation → Stores → Operation × Stores
unfolding stored_operation
append_operation uuid now input s =
    let entity_key = concat (entity_name input.entity) (concat ":" input.entity_id) in
    let revision = or_else (get entity_key s.revisions) 0 + 1 in
    let operation = stored_operation uuid now revision input in
    (
      operation,
      record {
        operations = put operation.id operation s.operations;
        revisions = put entity_key revision s.revisions;
        outbox = s.outbox;
      },
    )

abbrev pub remove_all : {V : Type 0} → List String → JsMap V → JsMap V
remove_all [] m = m
remove_all (id ∷ ids) m = remove_all ids (remove id m)

unfoldable pub acknowledge_changes : List String → Stores → Stores
acknowledge_changes ids s = record s { outbox = remove_all ids s.outbox }

unfoldable pub acknowledge_operations : List String → Stores → Stores
acknowledge_operations ids s = record s { operations = remove_all ids s.operations }

-- The change that an appended operation carries under its own id
unfoldable pub carried_change : NewSyncOperation → Option String
carried_change input = elim input.entity [
  | logical_book_change ↦ elim input.payload [
    | change c ↦ if c.change_id == input.entity_id then some input.entity_id else none
    | unknown text ↦ none
  ]
  | _ ↦ none
]

-- `LogicalBookOutboxJournal.append`; the first argument is that the outbox answers.
unfoldable pub append : Bool → String → String → NewSyncOperation → Stores → Operation × Stores
unfolding carried_change acknowledge_changes
append answers uuid now input s =
    let (operation, t) = append_operation uuid now input s in
    (
      operation,
      elim (carried_change input) [
        | none ↦ t
        | some id ↦ if answers then acknowledge_changes (id ∷ []) t else t
      ],
    )

abbrev pub outbox_operation : LogicalBookChange → Operation
outbox_operation c = record {
  id = concat outbox_operation_prefix c.change_id;
  entity = logical_book_change;
  entity_id = c.change_id;
  is_delete = false;
  revision = 1;
  created_at = c.created_at;
  payload = change c;
}

abbrev pub is_outbox_id : String → Bool
is_outbox_id id = is_some (after_prefix outbox_operation_prefix id)

abbrev pub outbox_change_ids : List String → List String
outbox_change_ids [] = []
outbox_change_ids (id ∷ ids) =
    let rest = outbox_change_ids ids in
    elim (after_prefix outbox_operation_prefix id) [ none ↦ rest | some c ↦ c ∷ rest ]

module _ (coll : Collation) where
  abbrev pub compare_operations : Operation → Operation → Sign
  compare_operations left right =
      then_by (coll.locale_compare left.created_at right.created_at)
        (coll.locale_compare left.id right.id)

  abbrev pub compare_pending_changes : LogicalBookChange → LogicalBookChange → Sign
  compare_pending_changes left right =
      then_by (coll.locale_compare left.created_at right.created_at)
        (coll.locale_compare left.change_id right.change_id)

  unfoldable pub pending_operations : Stores → List Operation
  pending_operations s = sort compare_operations (values s.operations)

  unfoldable pub list_pending_changes : Stores → List LogicalBookChange
  list_pending_changes s = sort compare_pending_changes (values s.outbox)

  -- `LogicalBookOutboxJournal.pending`
  unfoldable pub pending : Stores → List Operation
  unfolding pending_operations list_pending_changes
  pending s =
      sort compare_operations
        (pending_operations s ++ map outbox_operation (list_pending_changes s))

-- `LogicalBookOutboxJournal.acknowledge`
unfoldable pub acknowledge : List String → Stores → Stores
unfolding acknowledge_changes acknowledge_operations
acknowledge operation_ids s =
    acknowledge_changes (outbox_change_ids operation_ids)
      (acknowledge_operations (keep (λ id. not (is_outbox_id id)) operation_ids) s)
