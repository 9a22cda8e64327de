-- ===== src/Outbox/Handed.antt =====
-- An append in terms of the change that it carries.
use omnia_reader.Prelude.{
  String, Bool, ◌≡◌, refl, sym, ap, ◌∙◌, true, false, not, ◌==◌, ◌&&◌, ◌||◌, Option, none, some, [],
  ◌∷◌, arith, eq_iff, eq_refl, if◌then◌else◌,
}
use omnia_reader.Prelude.Collation.{Collation}
use omnia_reader.Prelude.JsMap.{JsMap, get, has, put, get-put, put-Keyed}
use omnia_reader.LogicalBook.Types.{LogicalBookChange}
use omnia_reader.Outbox.Journal.{
  Operation, NewSyncOperation, Stores, append_operation, acknowledge_changes, is_outbox_id,
  remove_all,
}
use omnia_reader.Outbox.Pending.{
  AreStores, waits, waits-eq, outbox_has, outbox_id, outbox_part, outbox_id-names, has-remove_all,
  remove_all-Keyed,
}

has-put :
    {V : Type 0} (k id : String) (v : V) (m : JsMap V) → has id (put k v m) ≡ (k == id || has id m)
unfolding has
has-put k id v m = ground (arith, get-put k id v m)

-- The id under which a change was in the outbox that has been handed over
abbrev pub is_handed : Bool → Option String → String → Bool
is_handed false carried id = false
is_handed true none id = false
is_handed true (some c) id = outbox_id c == id

module _ (coll : Collation) (uuid now : String) (input : NewSyncOperation) (s : Stores)
    (sound : AreStores s) (fresh : is_outbox_id uuid ≡ false) where
  abbrev pub next : Stores
  next = (append_operation uuid now input s).1

  pub next-AreStores : AreStores next
  unfolding append_operation
  next-AreStores =
      let operation = (append_operation uuid now input s).0 in
      record {
        operations_keyed =
            put-Keyed (λ (o : Operation). o.id) operation s.operations sound.operations_keyed;
        outbox_keyed = sound.outbox_keyed;
        apart = λ id theirs.
            has-put uuid id operation s.operations
            ∙ ground (arith, sound.apart id theirs, eq_iff uuid id);
      }

  pub next-waits : (id : String) → waits coll id next ≡ (uuid == id || waits coll id s)
  unfolding append_operation
  next-waits id =
      let operation = (append_operation uuid now input s).0 in
      ground (
        arith,
        waits-eq coll next next-AreStores id,
        waits-eq coll s sound id,
        has-put uuid id operation s.operations,
      )

  pub next-get : get uuid next.operations ≡ some (append_operation uuid now input s).0
  unfolding append_operation
  next-get =
      get-put uuid uuid (append_operation uuid now input s).0 s.operations ∙ rw (eq_refl uuid) refl

  handed-AreStores :
      (c : String) (t : Stores) → AreStores t → AreStores (acknowledge_changes (c ∷ []) t)
  unfolding acknowledge_changes
  handed-AreStores c t kept = record {
    operations_keyed = kept.operations_keyed;
    outbox_keyed =
        remove_all-Keyed (λ (x : LogicalBookChange). x.change_id) (c ∷ []) t.outbox
          kept.outbox_keyed;
    apart = kept.apart;
  }

  handed-waits :
      (c : String) (t : Stores)
      → AreStores t
      → (id : String)
      → waits coll id (acknowledge_changes (c ∷ []) t)
        ≡ (waits coll id t && not (outbox_id c == id))
  unfolding acknowledge_changes
  handed-waits c t kept id =
      waits-eq coll (acknowledge_changes (c ∷ []) t) (handed-AreStores c t kept) id
      ∙ by_part (outbox_part id) refl
      ∙ ap (λ b. b && not (outbox_id c == id)) (sym (waits-eq coll t kept id))
    where
      by_part :
          (o : Option String)
          → outbox_part id ≡ o
          → (has id t.operations || outbox_has coll (outbox_part id) (remove_all (c ∷ []) t.outbox))
            ≡ ((has id t.operations || outbox_has coll (outbox_part id) t.outbox)
                && not (outbox_id c == id))
      by_part none e = rw (outbox_id-names c id, e) (ground arith)
      by_part (some d) e =
          let theirs : is_outbox_id id ≡ true = rw e refl in
          rw (outbox_id-names c id, e)
            (ground (arith, has-remove_all d (c ∷ []) t.outbox, kept.apart id theirs))

  pub append-parts :
      (answers : Bool) (o : Option String) (t : Stores)
      → AreStores t
      → let u : Stores = elim o [
        | none ↦ t
        | some id ↦ if answers then acknowledge_changes (id ∷ []) t else t
      ] in
        AreStores u
        × (u.operations ≡ t.operations)
        × ((id : String) → waits coll id u ≡ (waits coll id t && not (is_handed answers o id)))
  unfolding acknowledge_changes
  append-parts false none t kept = (kept, refl, λ id. ground arith)
  append-parts true none t kept = (kept, refl, λ id. ground arith)
  append-parts false (some c) t kept = (kept, refl, λ id. ground arith)
  append-parts true (some c) t kept = (handed-AreStores c t kept, refl, handed-waits c t kept)
