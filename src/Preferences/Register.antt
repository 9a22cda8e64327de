-- ===== src/Preferences/Register.antt =====
-- The order of registers and the better of two of them.
use omnia_reader.Prelude.{◌≡◌, refl, Bool, true, Option, none, some, arith, if-holds}
use omnia_reader.Prelude.Collation.{Collation, Sign, negative, same, positive, flip, is_positive}
use omnia_reader.Preferences.State.{
  ReaderPreferenceRegister, compare_registers, preferred_register, register_ok,
}

module _ {ℓ} {V : Type ℓ} (coll : Collation) where
  compare_registers_refl : (a : ReaderPreferenceRegister V) → compare_registers coll a a ≡ same
  unfolding compare_registers
  compare_registers_refl a =
      ground (arith, coll.compare_refl a.device_id, coll.compare_refl a.change_id)

  compare_registers-flip :
      (a b : ReaderPreferenceRegister V)
      → compare_registers coll b a ≡ flip (compare_registers coll a b)
  unfolding compare_registers
  compare_registers-flip a b =
      ground (
        arith,
        coll.compare_flip a.device_id b.device_id,
        coll.compare_flip a.change_id b.change_id,
      )

  compare_registers_trans :
      (a b c : ReaderPreferenceRegister V) (s : Sign)
      → compare_registers coll a b ≡ s
      → compare_registers coll b c ≡ s
      → compare_registers coll a c ≡ s
  unfolding compare_registers
  compare_registers_trans a b c s h k = ground (
    arith,
    coll.compare_trans a.device_id b.device_id c.device_id negative,
    coll.compare_trans a.device_id b.device_id c.device_id same,
    coll.compare_trans a.device_id b.device_id c.device_id positive,
    coll.compare_trans a.change_id b.change_id c.change_id s,
    coll.compare_same_left a.device_id b.device_id c.device_id,
    coll.compare_same_left c.device_id b.device_id a.device_id,
    coll.compare_flip a.device_id b.device_id,
    coll.compare_flip b.device_id c.device_id,
    coll.compare_flip a.device_id c.device_id,
  )

  pub preferred_register_self :
      (o : Option (ReaderPreferenceRegister V)) → preferred_register coll o o ≡ o
  unfolding preferred_register
  preferred_register_self none = refl
  preferred_register_self (some a) = ground (arith, compare_registers_refl a)

  compare_registers-same_left :
      (a b c : ReaderPreferenceRegister V)
      → compare_registers coll a b ≡ same
      → compare_registers coll a c ≡ compare_registers coll b c
  unfolding compare_registers
  compare_registers-same_left a b c h = ground (
    arith,
    coll.compare_same_left a.device_id b.device_id c.device_id,
    coll.compare_same_left a.change_id b.change_id c.change_id,
  )

  -- Registers that compare as the same are the same.
  abbrev pub Agree :
      Option (ReaderPreferenceRegister V) → Option (ReaderPreferenceRegister V) → Type ℓ
  Agree left right =
      (a b : ReaderPreferenceRegister V)
      → left ≡ some a
      → right ≡ some b
      → compare_registers coll a b ≡ same
      → a ≡ b

  pub preferred_register_comm :
      (l r : Option (ReaderPreferenceRegister V))
      → Agree l r
      → preferred_register coll l r ≡ preferred_register coll r l
  unfolding preferred_register
  preferred_register_comm none none h = refl
  preferred_register_comm none (some b) h = refl
  preferred_register_comm (some a) none h = refl
  preferred_register_comm (some a) (some b) h =
      ground (arith, compare_registers-flip a b, h a b refl refl)

  pub preferred_register_assoc :
      (x y z : Option (ReaderPreferenceRegister V))
      → preferred_register coll (preferred_register coll x y) z
        ≡ preferred_register coll x (preferred_register coll y z)
  unfolding preferred_register
  preferred_register_assoc none y z = refl
  preferred_register_assoc (some a) none z = refl
  preferred_register_assoc (some a) (some b) none = ground arith
  preferred_register_assoc (some a) (some b) (some c) = ground (
    arith,
    compare_registers-flip a b,
    compare_registers-flip b c,
    compare_registers-flip a c,
    compare_registers_trans a b c negative,
    compare_registers_trans a b c positive,
    compare_registers-same_left a b c,
    compare_registers-same_left b a c,
    compare_registers-same_left b c a,
    compare_registers-same_left c b a,
  )

  pub preferred_register-ok :
      (value_ok : V → Bool) (l r : Option (ReaderPreferenceRegister V))
      → register_ok value_ok l ≡ true
      → register_ok value_ok r ≡ true
      → register_ok value_ok (preferred_register coll l r) ≡ true
  unfolding preferred_register
  preferred_register-ok value_ok none r h k = k
  preferred_register-ok value_ok (some a) none h k = h
  preferred_register-ok value_ok (some a) (some b) h k =
      if-holds (λ o. register_ok value_ok o ≡ true) (is_positive (compare_registers coll b a)) _ _
        (λ newer. k) (λ older. h)
