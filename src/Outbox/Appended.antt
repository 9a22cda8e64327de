-- ===== src/Outbox/Appended.antt =====
-- What waits, before and after an operation is appended.
use omnia_reader.Prelude.{
  String, Bool, ◌≡◌, refl, sym, ap, ◌∙◌, true, false, not, ◌==◌, ◌&&◌, ◌||◌, none, some, arith,
  eq_iff, if◌then◌else◌, Bool-cases, ◌↔◌, ◌⊎◌, inl, inr,
}
use omnia_reader.Prelude.Collation.{Collation}
use omnia_reader.Prelude.JsMap.{get}
use omnia_reader.LogicalBook.Types.{LogicalBookChange}
use omnia_reader.AutoSync.State.{
  SyncActivityKind, book, progress, bookmark, annotation, preference, logical_book_change,
}
use omnia_reader.Outbox.Journal.{
  Payload, change, unknown, NewSyncOperation, Stores, append_operation, carried_change, append,
  is_outbox_id,
}
use omnia_reader.Outbox.Pending.{AreStores, waits, outbox_id}
use omnia_reader.Outbox.Handed.{is_handed, next-AreStores, next-waits, next-get, append-parts}

-- What the text of the code asks for before it hands a change over: the operation is one of a logical
-- change, its payload is such a change, and this has the operation's own id. The outbox shows it
-- under the id.
pub record HandsOver (input : NewSyncOperation) (id : String) : Type 0 where
  pub handed_change : LogicalBookChange
  pub is_change : input.entity ≡ logical_book_change
  pub is_valid : input.payload ≡ change handed_change
  pub is_own : handed_change.change_id ≡ input.entity_id
  pub is_shown : outbox_id handed_change.change_id ≡ id

own_handed :
    (answers : Bool) (c : LogicalBookChange) (entity_id id : String)
    → is_handed answers (if c.change_id == entity_id then some entity_id else none) id ≡ true
    → (answers ≡ true) × (c.change_id ≡ entity_id) × (outbox_id entity_id ≡ id)
own_handed false c entity_id id h = absurd (ground arith)
own_handed true c entity_id id h = elim (Bool-cases (c.change_id == entity_id)) [
  | inl own ↦ (
    refl,
    (eq_iff c.change_id entity_id).0 own,
    (eq_iff (outbox_id entity_id) id).0 (ground arith),
  )
  | inr other ↦ absurd (ground arith)
]

handed-HandsOver :
    (answers : Bool) (input : NewSyncOperation) (id : String)
    → is_handed answers (carried_change input) id ≡ true
    → (answers ≡ true) × HandsOver input id
unfolding carried_change
handed-HandsOver answers input id handed = by_entity input.entity refl
  where
    carried :
        input.entity ≡ logical_book_change
        → (c : LogicalBookChange) → input.payload ≡ change c
        → carried_change input
          ≡ (if c.change_id == input.entity_id then some input.entity_id else none)
    carried e c q = rw (e, q) refl

    parts :
        input.entity ≡ logical_book_change
        → (c : LogicalBookChange) → input.payload ≡ change c
        → (answers ≡ true) × (c.change_id ≡ input.entity_id) × (outbox_id input.entity_id ≡ id)
    parts e c q =
        own_handed answers c input.entity_id id
          (sym (ap (λ o. is_handed answers o id) (carried e c q)) ∙ handed)

    by_payload :
        input.entity ≡ logical_book_change
        → (payload : Payload) → input.payload ≡ payload
        → (answers ≡ true) × HandsOver input id
    by_payload e (unknown text) q = absurd (ground arith)
    by_payload e (change c) q = (
      (parts e c q).0,
      record {
        handed_change = c;
        is_change = e;
        is_valid = q;
        is_own = (parts e c q).1;
        is_shown = ap outbox_id (parts e c q).1 ∙ (parts e c q).2;
      },
    )

    by_entity :
        (entity : SyncActivityKind) → input.entity ≡ entity → (answers ≡ true) × HandsOver input id
    by_entity logical_book_change e = by_payload e input.payload refl
    by_entity book e = absurd (ground arith)
    by_entity progress e = absurd (ground arith)
    by_entity bookmark e = absurd (ground arith)
    by_entity annotation e = absurd (ground arith)
    by_entity preference e = absurd (ground arith)

HandsOver-handed :
    (input : NewSyncOperation) (id : String)
    → HandsOver input id
    → is_handed true (carried_change input) id ≡ true
unfolding carried_change
HandsOver-handed input id h =
    rw (h.is_change, h.is_valid)
      (ground (
        arith,
        h.is_own,
        h.is_shown,
        eq_iff h.handed_change.change_id input.entity_id,
        eq_iff (outbox_id input.entity_id) id,
      ))

append-waits_handed :
    (coll : Collation) (answers : Bool) (uuid now : String) (input : NewSyncOperation) (s : Stores)
    → AreStores s
    → is_outbox_id uuid ≡ false
    → (id : String)
    → waits coll id (append answers uuid now input s).1
      ≡ ((uuid == id || waits coll id s) && not (is_handed answers (carried_change input) id))
unfolding append append_operation
append-waits_handed coll answers uuid now input s sound fresh id =
    let (kept, same, less) =
      append-parts coll uuid now input s sound fresh answers (carried_change input)
        (append_operation uuid now input s).1 (next-AreStores coll uuid now input s sound fresh) in
    less id
    ∙ ap (λ b. b && not (is_handed answers (carried_change input) id))
        (next-waits coll uuid now input s sound fresh id)

true-ne-false : true ≡ false → ⊥
true-ne-false h = cc

not_true : (b : Bool) → ¬ (b ≡ true) → b ≡ false
not_true true h = absurd (h refl)
not_true false h = refl

waits_split :
    (uuid id : String) (old handed : Bool)
    → ((uuid == id || old) && not handed) ≡ true
    → ((uuid ≡ id) ⊎ (old ≡ true)) × (handed ≡ false)
waits_split uuid id true handed h = (inr refl, ground arith)
waits_split uuid id false handed h = (inl ((eq_iff uuid id).0 (ground arith)), ground arith)

waits_join :
    (uuid id : String) (old handed : Bool)
    → (uuid ≡ id) ⊎ (old ≡ true)
    → handed ≡ false
    → ((uuid == id || old) && not handed) ≡ true
waits_join uuid id old handed there kept = ground (arith, eq_iff uuid id)

append-waits_iff :
    (coll : Collation) (answers : Bool) (uuid now : String) (input : NewSyncOperation) (s : Stores)
    → AreStores s
    → is_outbox_id uuid ≡ false
    → (id : String)
    → (waits coll id (append answers uuid now input s).1 ≡ true)
      ↔ (((uuid ≡ id) ⊎ (waits coll id s ≡ true)) × ¬ ((answers ≡ true) × HandsOver input id))
append-waits_iff coll answers uuid now input s sound fresh id =
    let e = append-waits_handed coll answers uuid now input s sound fresh id in
    let handed = is_handed answers (carried_change input) id in
    (
      λ waiting.
          let (there, kept) = waits_split uuid id (waits coll id s) handed (sym e ∙ waiting) in
          (
            there,
            λ h. true-ne-false (
                sym (
                  ap (λ a. is_handed a (carried_change input) id) h.0
                  ∙ HandsOver-handed input id h.1)
                ∙ kept),
          ),
      λ h.
          e
          ∙ waits_join uuid id (waits coll id s) handed h.0
              (not_true handed (λ x. h.1 (handed-HandsOver answers input id x))),
    )

-- With a new id that is no outbox's, an append keeps the invariant of the stores and stores its
-- operation, whose payload is the input's. Afterwards an id waits exactly when it is the new one or
-- waited before, and it is not the outbox's id of a handed-over change: if the outbox answers, a
-- change is handed over when the operation is one of a logical change, its payload is such a change,
-- and this has the operation's own id.
pub append-waits :
    (coll : Collation) (answers : Bool) (uuid now : String) (input : NewSyncOperation) (s : Stores)
    → AreStores s
    → is_outbox_id uuid ≡ false
    → let (operation, t) = append answers uuid now input s in
      AreStores t
      × (get uuid t.operations ≡ some operation)
      × (operation.payload ≡ input.payload)
      × ((id : String)
          → (waits coll id t ≡ true) ↔ (
              ((uuid ≡ id) ⊎ (waits coll id s ≡ true)) × ¬ ((answers ≡ true) × HandsOver input id)))
unfolding append append_operation
append-waits coll answers uuid now input s sound fresh =
    let t = (append_operation uuid now input s).1 in
    let (kept, same, less) =
      append-parts coll uuid now input s sound fresh answers (carried_change input) t
        (next-AreStores coll uuid now input s sound fresh) in
    (
      kept,
      ap (get uuid) same ∙ next-get coll uuid now input s sound fresh,
      refl,
      append-waits_iff coll answers uuid now input s sound fresh,
    )
