-- ===== src/Migration/Downgraded.antt =====
-- `downgrade` against the models.
use flyrank_backend_capstone.Prelude.{
  ◌≡◌, refl, ap, Bool, false, Bool-cases, inl, inr, some, List, [], ◌∷◌, string_dec,
}
use flyrank_backend_capstone.Migration.Catalog.{Catalog, any, reject, execute_all}
use flyrank_backend_capstone.Migration.Mapped.{Texts}
use flyrank_backend_capstone.Migration.Statements.{downgrade_statements}
use flyrank_backend_capstone.Migration.Vacant.{IsVacant, with_schema}

reject-none : {A : Type 0} (p : A → Bool) (xs : List A) → any p xs ≡ false → reject p xs ≡ xs
reject-none p [] h = refl
reject-none p (x ∷ xs) h = elim (Bool-cases (p x)) [
  | inl e ↦ absurd (cc (rw e at h))
  | inr e ↦ rw e (ap (λ ys. x ∷ ys) (reject-none p xs (rw e at h)))
]

-- On a catalog that has the tables, indexes and ENUM types of the models, with whichever labels, and
-- nothing else by their names or that depends on them, every statement of `downgrade` succeeds, and
-- what is left is the catalog without them: no table is dropped while another one refers to it, and no
-- type while a column has it.
pub downgrade-with_schema :
    (emits : Bool) (texts : Texts) (c : Catalog)
    → IsVacant c
    → execute_all emits downgrade_statements (with_schema texts c) ≡ some c
unfolding execute_all string_dec
downgrade-with_schema emits texts c h =
    rw
      (
        h.unreferenced.1.1.1.1.1.0,
        reject-none _ c.tables (h.tables.1.1.1.1.1.0),
        reject-none _ c.indexes (h.unindexed.1.1.1.1.1.0),
        h.unreferenced.1.1.1.1.0,
        reject-none _ c.tables (h.tables.1.1.1.1.0),
        reject-none _ c.indexes (h.unindexed.1.1.1.1.0),
        h.unreferenced.1.1.1.0,
        reject-none _ c.tables (h.tables.1.1.1.0),
        reject-none _ c.indexes (h.unindexed.1.1.1.0),
        h.unreferenced.1.1.0,
        reject-none _ c.tables (h.tables.1.1.0),
        reject-none _ c.indexes (h.unindexed.1.1.0),
        h.unreferenced.1.0,
        reject-none _ c.tables (h.tables.1.0),
        reject-none _ c.indexes (h.unindexed.1.0),
        h.unreferenced.0,
        reject-none _ c.tables (h.tables.0),
        reject-none _ c.indexes (h.unindexed.0),
        h.unused.1.1.1.0,
        reject-none _ c.enums (h.enums.1.1.1.0),
        h.unused.1.1.0,
        reject-none _ c.enums (h.enums.1.1.0),
        h.unused.1.0,
        reject-none _ c.enums (h.enums.1.0),
        h.unused.0,
        reject-none _ c.enums (h.enums.0),
      )
      refl
