-- ===== src/Outbox/Tests.antt =====
-- A change that waits in the outbox beside an operation of the journal.
use omnia_reader.Prelude.{
  String, ◌≡◌, refl, true, false, not, ◌↔◌, ◌⊎◌, ◌&&◌, some, [], ◌∷◌, includes, arith, eq_iff,
  length,
}
use omnia_reader.Prelude.Collation.{Collation}
use omnia_reader.Prelude.CodeUnits.Laws.{code_unit_collation}
use omnia_reader.Prelude.JsMap.{get, has, put, remove, values}
use omnia_reader.AutoSync.State.{bookmark, logical_book_change}
use omnia_reader.Gateway.Requests.{after_prefix}
use omnia_reader.LogicalBook.Types.{LogicalBookChange, metadata}
use omnia_reader.Outbox.Journal.{
  Operation, NewSyncOperation, Stores, change, unknown, pending, append, append_operation,
  acknowledge, is_outbox_id,
}
use omnia_reader.Outbox.Pending.{AreStores, waits, acknowledge-waits}
use omnia_reader.Outbox.Appended.{HandsOver, append-waits}

abbrev coll : Collation
coll = code_unit_collation

abbrev renamed : LogicalBookChange
renamed = record {
  change_id = "change:1";
  kind = metadata;
  parents = [];
  resulting_books = [];
  removed_logical_book_ids = [];
  variant_effects = [];
  preference_effects = [];
  resolves_conflict_ids = [];
  created_at = "2026-01-01T08:00:00.000Z";
  device_id = "tablet";
  app_version = "1.0.0";
}

abbrev marked : Operation
marked = record {
  id = "op:1";
  entity = bookmark;
  entity_id = "mark:1";
  is_delete = false;
  revision = 1;
  created_at = "2026-01-01T09:00:00.000Z";
  payload = unknown "mark:1";
}

abbrev stores : Stores
stores = record {
  operations = ("op:1", marked) ∷ [];
  revisions = ("bookmark:mark:1", 1) ∷ [];
  outbox = ("change:1", renamed) ∷ [];
}

own_id : is_outbox_id "op:1" ≡ false
unfolding after_prefix
own_id = refl

stores-AreStores : AreStores stores
unfolding has get
stores-AreStores = record {
  operations_keyed = (refl, tt);
  outbox_keyed = (refl, tt);
  apart = λ id theirs. ground (arith, eq_iff "op:1" id, own_id);
}

pending_runs : length (pending coll stores) ≡ 2
unfolding pending values
pending_runs = refl

acknowledge_runs :
    pending coll (acknowledge ("logical-book-outbox:change:1" ∷ "op:1" ∷ []) stores) ≡ []
unfolding pending acknowledge values remove after_prefix
acknowledge_runs = refl

acknowledge-waits_example :
    waits coll "op:1" (acknowledge ("logical-book-outbox:change:1" ∷ []) stores)
    ≡ (waits coll "op:1" stores && not (includes "op:1" ("logical-book-outbox:change:1" ∷ [])))
acknowledge-waits_example =
    acknowledge-waits coll stores ("logical-book-outbox:change:1" ∷ []) stores-AreStores "op:1"

abbrev input : NewSyncOperation
input = record {
  entity = logical_book_change;
  entity_id = "change:1";
  is_delete = false;
  payload = change renamed;
}

abbrev now : String
now = "2026-01-01T10:00:00.000Z"

append_runs : length (pending coll (append true "op:2" now input stores).1) ≡ 2
unfolding pending append append_operation values put remove get
append_runs = refl

append-waits_example :
    let (operation, t) = append true "op:2" now input stores in
    AreStores t
    × (get "op:2" t.operations ≡ some operation)
    × (operation.payload ≡ change renamed)
    × ((id : String)
        → (waits coll id t ≡ true) ↔ (
            (("op:2" ≡ id) ⊎ (waits coll id stores ≡ true))
            × ¬ ((true ≡ true) × HandsOver input id)))
append-waits_example =
    append-waits coll true "op:2" now input stores stores-AreStores (unfold after_prefix in refl)
