-- ===== src/Store/Kept.antt =====
-- What a session keeps whose changes are all of one kind: a relation of the tables to those that it
-- began on.
use flyrank_backend_capstone.Prelude.{
  ◌≡◌, ◌⊎◌, inl, inr, refl, sym, ap, subst, ◌∙◌, List, [], ◌∷◌, ◌++◌, All, Bool, true, false,
  Option, none, some, if◌then◌else◌,
}
use flyrank_backend_capstone.Store.Schema.{
  Tables, Change, DbError, Applied, applied, refused, apply_change, apply_changes, and_then,
}
use flyrank_backend_capstone.Store.Database.{
  View, contract, view_add, view_flush, view_commit, view_rollback, flushed, committed,
}
use flyrank_backend_capstone.Store.Action.{Run, add, flush, commit, rollback, raise_if_some}
use flyrank_backend_capstone.Store.Preserves.{Preserves}

pub Applied-cases :
    (a : Applied) → ((t : Tables) × (a ≡ applied t)) ⊎ ((e : DbError) × (a ≡ refused e))
Applied-cases (applied t) = inl (t, refl)
Applied-cases (refused e) = inr (e, refl)

pub and_then-applied :
    {a : Applied} {t u : Tables} (k : Tables → Applied)
    → a ≡ applied t
    → and_then a k ≡ applied u
    → k t ≡ applied u
and_then-applied k p e = ap (λ x. and_then x k) (sym p) ∙ e

pub and_then-refused :
    {a : Applied} {x : DbError} {u : Tables} (k : Tables → Applied)
    → a ≡ refused x
    → ¬ (and_then a k ≡ applied u)
and_then-refused k p e = cc

pub All-append :
    (P : Change → Type 0) (xs ys : List Change) → All P xs → All P ys → All P (xs ++ ys)
All-append P [] ys p q = q
All-append P (x ∷ xs) ys p q = (p.0, All-append P xs ys p.1 q)

-- What is stored, seen and waiting in a session that began on `t`.
pub record IsKept (Allowed : Change → Type 0) (Same : Tables → Tables → Type 0) (t : Tables)
    (v : View) : Type 0 where
  pub stored : Same t v.stored
  pub visible : Same t v.visible
  pub pending : All Allowed v.pending

-- Each change of the kind keeps the relation.
abbrev pub KeptBy : (Change → Type 0) → (Tables → Tables → Type 0) → Type 0
KeptBy Allowed Same =
    (c : Change) (t u v : Tables) → Allowed c → Same t u → apply_change c u ≡ applied v → Same t v

module _ {Allowed : Change → Type 0} {Same : Tables → Tables → Type 0}
    (keeps : KeptBy Allowed Same) where
  pub apply_changes-Same :
      (cs : List Change) (t u v : Tables)
      → All Allowed cs
      → Same t u
      → apply_changes cs u ≡ applied v
      → Same t v
  unfolding apply_changes
  apply_changes-Same [] t u v b h e = subst (Same t) (applied-injective e) h
    where
      applied-injective : {a b : Tables} → ◌≡◌ {A = Applied} (applied a) (applied b) → a ≡ b
      applied-injective e = cc
  apply_changes-Same (c ∷ cs) t u v b h e = elim (Applied-cases (apply_change c u)) [
    | inl (w, p) ↦
        apply_changes-Same cs t w v b.1 (keeps c t u w b.0 h p)
          (and_then-applied (λ x. apply_changes cs x) p e)
    | inr (x, p) ↦ absurd (and_then-refused (λ x. apply_changes cs x) p e)
  ]

  module _ {t : Tables} where
    pub add-IsKept : (c : Change) → Allowed c → Preserves (IsKept Allowed Same t) (add contract c)
    unfolding add view_add
    add-IsKept c b = record {
      at = λ r h. record {
        stored = h.stored;
        visible = h.visible;
        pending = All-append Allowed r.session.pending (c ∷ []) h.pending (b, tt);
      };
    }

    flushed-IsKept :
        (a : Applied) (v : View)
        → ((u : Tables) → a ≡ applied u → Same t u)
        → IsKept Allowed Same t v
        → IsKept Allowed Same t (flushed a v).1
    flushed-IsKept (applied u) v k h = record {
      stored = h.stored;
      visible = k u refl;
      pending = tt;
    }
    flushed-IsKept (refused e) v k h = record {
      stored = h.stored;
      visible = h.visible;
      pending = h.pending;
    }

    committed-IsKept :
        (a : Applied) (v : View)
        → ((u : Tables) → a ≡ applied u → Same t u)
        → IsKept Allowed Same t v
        → IsKept Allowed Same t (committed a v).1
    committed-IsKept (applied u) v k h = record {
      stored = k u refl;
      visible = k u refl;
      pending = tt;
    }
    committed-IsKept (refused e) v k h = record {
      stored = h.stored;
      visible = h.visible;
      pending = h.pending;
    }

    IsKept-if :
        (b : Bool) (p q : Option DbError × View)
        → IsKept Allowed Same t p.1
        → IsKept Allowed Same t q.1
        → IsKept Allowed Same t (if b then p else q).1
    IsKept-if true p q x y = x
    IsKept-if false p q x y = y

    raised-IsKept :
        {A : Type 0} (e : Option DbError) (a : A) (r : Run View)
        → IsKept Allowed Same t r.session
        → IsKept Allowed Same t (raise_if_some e a r).1.session
    raised-IsKept none a r h = h
    raised-IsKept (some e) a r h = h

    sent :
        (v : View)
        → IsKept Allowed Same t v
        → (u : Tables) → apply_changes v.pending v.visible ≡ applied u
        → Same t u
    sent v h u e = apply_changes-Same v.pending t v.visible u h.pending h.visible e

    pub flush-IsKept : Preserves (IsKept Allowed Same t) (flush contract)
    unfolding flush view_flush
    flush-IsKept = record {
      at = λ r h.
          raised-IsKept _ tt _
            (IsKept-if r.session.failed _ _ h (flushed-IsKept _ r.session (sent r.session h) h));
    }

    pub commit-IsKept : Preserves (IsKept Allowed Same t) (commit contract)
    unfolding commit view_commit
    commit-IsKept = record {
      at = λ r h.
          raised-IsKept _ tt _
            (IsKept-if r.session.failed _ _ h (committed-IsKept _ r.session (sent r.session h) h));
    }

    pub rollback-IsKept : Preserves (IsKept Allowed Same t) (rollback contract)
    unfolding rollback view_rollback
    rollback-IsKept = record {
      at = λ r h. record { stored = h.stored; visible = h.stored; pending = tt };
    }
