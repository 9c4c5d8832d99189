-- ===== src/Base/Row.antt =====
-- Tables with a primary key: an UPDATE by the key meets one row.
use mathlib.Core.Path.{◌≡◌, refl, sym, ◌∙◌, subst}
use mathlib.Core.Logic.{inl, inr}
use mathlib.Core.Bool.{Bool, true, false, ◌&&◌}
use mathlib.Core.Option.{some}
use mathlib.Core.List.{List, [], ◌∷◌}
use Prim.Native.Nat.{ℕ}
use native.Mathlib.Omega.{arith}
use multi_agent_ai_platform.Base.Tests.{◌==◌, ==_iff, if◌then◌else◌, Bool-cases}
use multi_agent_ai_platform.Base.Table.{
  All, All-update_where, find_where, update_where, count_where,
}
use multi_agent_ai_platform.Base.Member.{Apart}

module _ {A : Type 0} (key : A → ℕ) where
  abbrev pub Keyed : List A → Type 0
  Keyed rows = Apart (λ a b. key a ≡ key b) rows

  pub find-key :
      (id : ℕ) (rows : List A) (row : A)
      → find_where (λ x. key x == id) rows ≡ some row
      → key row ≡ id
  find-key id [] row h = cc
  find-key id (x ∷ rows) row h = ground (arith, find-key id rows row)

  untouched :
      (id i : ℕ) (q : A → Bool) (f : A → A) (rows : List A)
      → i ≡ id
      → All (λ y. i ≡ key y → ⊥) rows
      → (update_where (λ x. key x == id && q x) f rows ≡ rows)
        × (count_where (λ x. key x == id && q x) rows ≡ 0)
  untouched id i q f [] e h = (refl, refl)
  untouched id i q f (x ∷ rows) e h = ground (arith, untouched id i q f rows e h.1, h.0)

  -- Where the row of an id fails `q`, or there is none, the UPDATE changes nothing.
  pub update_miss :
      (id : ℕ) (q : A → Bool) (f : A → A) (rows : List A)
      → Keyed rows
      → ((row : A) → find_where (λ x. key x == id) rows ≡ some row → q row ≡ false)
      → (update_where (λ x. key x == id && q x) f rows ≡ rows)
        × (count_where (λ x. key x == id && q x) rows ≡ 0)
  update_miss id q f [] u h = (refl, refl)
  update_miss id q f (x ∷ rows) u h = elim (Bool-cases (key x == id)) [
    | inl same ↦
        ground
          (arith, untouched id (key x) q f rows ((==_iff (key x) id).0 same) u.0, h x (rw same))
    | inr other ↦ ground (arith, update_miss id q f rows u.1 (λ row e. h row (rw other e)))
  ]

  -- Where the row of an id satisfies `q`, the UPDATE meets it and no other.
  pub update_hit :
      (id : ℕ) (q : A → Bool) (f : A → A) (row : A) (rows : List A)
      → Keyed rows
      → find_where (λ x. key x == id) rows ≡ some row
      → q row ≡ true
      → key (f row) ≡ key row
      → (count_where (λ x. key x == id && q x) rows ≡ 1)
        × (find_where (λ x. key x == id) (update_where (λ x. key x == id && q x) f rows)
            ≡ some (f row))
  update_hit id q f row [] u found holds kept = cc
  update_hit id q f row (x ∷ rows) u found holds kept = elim (Bool-cases (key x == id)) [
    | inl same ↦ ground (arith, untouched id (key x) q f rows ((==_iff (key x) id).0 same) u.0)
    | inr other ↦ ground (arith, update_hit id q f row rows u.1)
  ]

  kept_if :
      (p : A → Bool) (f : A → A)
      → ((x : A) → key (f x) ≡ key x)
      → (x : A) → key (if p x then f x else x) ≡ key x
  kept_if p f kept x = ground (arith, kept x)

  pub update_where-Keyed :
      (p : A → Bool) (f : A → A)
      → ((x : A) → key (f x) ≡ key x)
      → (rows : List A) → Keyed rows
      → Keyed (update_where p f rows)
  update_where-Keyed p f kept [] u = tt
  update_where-Keyed p f kept (x ∷ rows) u = (
    subst (λ i. All (λ y. i ≡ key y → ⊥) (update_where p f rows)) (sym (kept_if p f kept x))
        (All-update_where (λ y. key x ≡ key y → ⊥) p f (λ y _ ne e. ne (e ∙ kept y)) rows u.0),
    update_where-Keyed p f kept rows u.1,
  )
