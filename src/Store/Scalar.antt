-- ===== src/Store/Scalar.antt =====
-- SQLAlchemy's `scalar_one_or_none` over the rows of a SELECT.
use flyrank_backend_capstone.Prelude.{
  ◌≡◌, refl, sym, subst, ◌∙◌, Bool, true, List, [], ◌∷◌, Option, none, some, Bool-cases, inl, inr,
  find, Member, arith, if◌then◌else◌,
}
use flyrank_backend_capstone.Store.Schema.{is_some}
use flyrank_backend_capstone.Store.Database.{View}
use flyrank_backend_capstone.Store.Action.{Action, pure, raise, multiple_results_found}
use flyrank_backend_capstone.Store.Simulation.{Simulates, simulation}

-- `result.scalar_one_or_none()` over the rows that a WHERE clause keeps.
pub data Scalar (A : Type 0) : Type 0 where
  no_row many_rows : Scalar A
  one_row : A → Scalar A

abbrev pub and_row : {A : Type 0} → A → Scalar A → Scalar A
and_row a no_row = one_row a
and_row a (one_row b) = many_rows
and_row a many_rows = many_rows

abbrev pub scalar_one : {A : Type 0} → (A → Bool) → List A → Scalar A
scalar_one where_ [] = no_row
scalar_one where_ (a ∷ as_) =
    let rest = scalar_one where_ as_ in if where_ a then and_row a rest else rest

abbrev pub or_raise_many : {S A : Type 0} → Scalar A → Action S (Option A)
or_raise_many no_row = pure none
or_raise_many (one_row a) = pure (some a)
or_raise_many many_rows = raise multiple_results_found

-- The row that `scalar_one_or_none` returns is in the table and passes the test.
module _ {A : Type 0} (p : A → Bool) where
  and_row-one : (a b : A) (s : Scalar A) → and_row a s ≡ one_row b → (a ≡ b) × (s ≡ no_row)
  and_row-one a b no_row e = (ground arith, refl)
  and_row-one a b (one_row c) e = cc
  and_row-one a b many_rows e = cc

  pub scalar_one-Member :
      (xs : List A) (b : A) → scalar_one p xs ≡ one_row b → Member b xs × (p b ≡ true)
  scalar_one-Member [] b e = cc
  scalar_one-Member (a ∷ as_) b e = elim (Bool-cases (p a)) [
    | inl h ↦
        let (same, _) = and_row-one a b (scalar_one p as_) (sym (rw h refl) ∙ e) in
        (inl (sym same), subst (λ x. p x ≡ true) same h)
    | inr h ↦ let (m, q) = scalar_one-Member as_ b (sym (rw h refl) ∙ e) in (inr m, q)
  ]

  pub find-Member : (xs : List A) (b : A) → Member b xs → p b ≡ true → is_some (find p xs) ≡ true
  find-Member [] b m h = absurd m
  find-Member (a ∷ as_) b (inl e) h = rw⁻¹ e (rw h refl)
  find-Member (a ∷ as_) b (inr m) h = elim (Bool-cases (p a)) [
    | inl q ↦ rw q refl
    | inr q ↦ rw q (find-Member as_ b m h)
  ]

module _ {S : Type 0} {view : S → View} where
  pub Simulates-or_raise_many :
      {A : Type 0} (s : Scalar A) → Simulates view (or_raise_many s) (or_raise_many s)
  Simulates-or_raise_many no_row = search simulation
  Simulates-or_raise_many (one_row a) = search simulation
  Simulates-or_raise_many many_rows = search simulation
