-- ===== src/LogicalBook/Clock/Laws.antt =====
-- Two replicas that compare the same two changes agree on the winner.
use omnia_reader.Prelude.{
  ◌≡◌, ◌≢◌, sym, ◌⊎◌, Bool, false, not, some, none, refl, true, eq_iff, arith, ap, ◌∙◌,
}
use omnia_reader.Prelude.Collation.{Collation, same}
use omnia_reader.LogicalBook.Types.{LogicalBookStateClock}
use omnia_reader.LogicalBook.Ancestry.{Changes, is_ancestor}
use omnia_reader.LogicalBook.Clock.{clock_wins, tombstone_clock_wins}

module _ (coll : Collation) (changes : Changes) (a b : LogicalBookStateClock) where
  ids_apart : coll.locale_compare a.change_id b.change_id ≢ same → a.change_id ≢ b.change_id
  ids_apart apart e =
      apart (ap (coll.locale_compare a.change_id) (sym e) ∙ coll.compare_refl a.change_id)

  -- Of two clocks whose ids the collation tells apart and whose changes are not each an ancestor
  -- of the other, exactly one wins over the other, whichever of them is the candidate. The same
  -- holds of tombstone clocks, with the two flags exchanged along with the clocks.
  pub clock_wins_total :
      (x y : Bool)
      → (is_ancestor a.change_id b.change_id changes ≡ false)
        ⊎ (is_ancestor b.change_id a.change_id changes ≡ false)
      → coll.locale_compare a.change_id b.change_id ≢ same
      → (clock_wins coll changes a (some b) ≡ not (clock_wins coll changes b (some a)))
        × (tombstone_clock_wins coll changes a (some b) x y
            ≡ not (tombstone_clock_wins coll changes b (some a) y x))
  unfolding clock_wins tombstone_clock_wins
  clock_wins_total x y acyclic apart = ground (
    arith,
    eq_iff a.change_id b.change_id,
    eq_iff b.change_id a.change_id,
    coll.compare_flip a.change_id b.change_id,
    ids_apart apart,
  )

-- Nothing stands against a tombstone clock where there is no record.
pub tombstone_clock_wins-none :
    (coll : Collation) (changes : Changes) (a : LogicalBookStateClock) (x y : Bool)
    → tombstone_clock_wins coll changes a none x y ≡ true
unfolding tombstone_clock_wins
tombstone_clock_wins-none coll changes a x y = refl
