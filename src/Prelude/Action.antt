-- ===== src/Prelude/Action.antt =====
-- An operation on a state that returns or throws: what it wrote stays written when it throws.
pub data Outcome (E A : Type 0) : Type 0 where
  returned : A → Outcome E A
  thrown : E → Outcome E A

abbrev pub Action : Type 0 → Type 0 → Type 0 → Type 0
Action E S A = S → Outcome E A × S

module _ {E S : Type 0} where
  abbrev pub pure : {A : Type 0} → A → Action E S A
  pure a s = (returned a, s)

  abbrev pub raise : {A : Type 0} → E → Action E S A
  raise e s = (thrown e, s)

  -- The outcome of a computation that leaves the state alone.
  abbrev pub lift : {A : Type 0} → Outcome E A → Action E S A
  lift o s = (o, s)

  abbrev pub get_state : Action E S S
  get_state s = (returned s, s)

  abbrev pub set_state : S → Action E S Unit
  set_state s _ = (returned tt, s)

  infixl 5 ◌>>=◌ ◌>>◌
  abbrev pub ◌>>=◌ : {A B : Type 0} → Action E S A → (A → Action E S B) → Action E S B
  ◌>>=◌ m f s = let (r, t) = m s in elim r [ returned a ↦ f a t | thrown e ↦ raise e t ]

  abbrev pub ◌>>◌ : {A B : Type 0} → Action E S A → Action E S B → Action E S B
  m >> k = m >>= λ _. k

-- What holds of a step's end, by how it ended.
abbrev pub Ends : {E S A : Type 0} → (A → S → Type 0) → (S → Type 0) → Outcome E A × S → Type 0
Ends Q I (returned a, u) = Q a u
Ends Q I (thrown e, u) = I u

pub bind-Ends :
    {E S A B : Type 0} (Q : A → S → Type 0) (R : B → S → Type 0) (I : S → Type 0) (m : Action E S A)
    (f : A → Action E S B) (s : S)
    → Ends Q I (m s)
    → ((a : A) (u : S) → Q a u → Ends R I (f a u))
    → Ends R I ((m >>= f) s)
bind-Ends {E = E} {S = S} {A = A} {B = B} Q R I m f s first next = by_end (m s) first
  where
    by_end :
        (r : Outcome E A × S)
        → Ends Q I r
        → Ends {E = E} {S = S} {A = B} R I
            (elim r.0 [ returned a ↦ f a r.1 | thrown e ↦ (thrown e, r.1) ])
    by_end (returned a, u) h = next a u h
    by_end (thrown e, u) h = h
