-- ===== src/Base/Sorting.antt =====
-- The stable sort: what it returns is sorted, and holds the given items.
use mathlib.Core.Path.{◌≡◌, sym}
use mathlib.Core.Logic.{◌⊎◌, inl, inr}
use mathlib.Core.Bool.{Bool, true, false}
use mathlib.Core.List.{List, [], ◌∷◌, Perm}
use mathlib.Core.List.Perm
use multi_agent_ai_platform.Base.Tests.{Bool-cases}
use multi_agent_ai_platform.Base.Table.{All}
use multi_agent_ai_platform.Base.Member.{Among}
use multi_agent_ai_platform.Base.Sort.{insert_by, sort_by}

-- A total preorder as a test.
pub record IsOrder {A : Type 0} (le : A → A → Bool) : Type 0 where
  pub total : (x y : A) → le x y ≡ false → le y x ≡ true
  pub trans : (x y z : A) → le x y ≡ true → le y z ≡ true → le x z ≡ true

module _ {A : Type 0} (le : A → A → Bool) where
  abbrev pub IsSorted : List A → Type 0
  IsSorted [] = Unit
  IsSorted (x ∷ xs) = All (λ y. le x y ≡ true) xs × IsSorted xs

  insert_by-perm : (x : A) (ys : List A) → Perm (insert_by le x ys) (x ∷ ys)
  unfolding insert_by
  insert_by-perm x [] = Perm.refl (x ∷ [])
  insert_by-perm x (y ∷ ys) = elim (Bool-cases (le x y)) [
    | inl first ↦ rw first (Perm.refl _)
    | inr later ↦ rw later (Perm.trans (Perm.cons y (insert_by-perm x ys)) (Perm.swap x y ys))
  ]

  pub sort_by-perm : (xs : List A) → Perm (sort_by le xs) xs
  unfolding sort_by
  sort_by-perm [] = Perm.refl []
  sort_by-perm (x ∷ xs) =
      Perm.trans (insert_by-perm x (sort_by le xs)) (Perm.cons x (sort_by-perm xs))

  insert_by-All :
      (P : A → Type 0) (x : A) (ys : List A) → P x → All P ys → All P (insert_by le x ys)
  unfolding insert_by
  insert_by-All P x [] p h = (p, tt)
  insert_by-All P x (y ∷ ys) p h = elim (Bool-cases (le x y)) [
    | inl first ↦ rw first (p, h)
    | inr later ↦ rw later (h.0, insert_by-All P x ys p h.1)
  ]

  pub sort_by-All : (P : A → Type 0) (xs : List A) → All P xs → All P (sort_by le xs)
  unfolding sort_by
  sort_by-All P [] h = tt
  sort_by-All P (x ∷ xs) h = insert_by-All P x (sort_by le xs) h.0 (sort_by-All P xs h.1)

  All-trans :
      IsOrder le
      → (x y : A) (ys : List A) → le x y ≡ true
      → All (λ z. le y z ≡ true) ys
      → All (λ z. le x z ≡ true) ys
  All-trans o x y [] e h = tt
  All-trans o x y (z ∷ ys) e h = (o.trans x y z e h.0, All-trans o x y ys e h.1)

  insert_by-IsSorted :
      IsOrder le → (x : A) (ys : List A) → IsSorted ys → IsSorted (insert_by le x ys)
  unfolding insert_by
  insert_by-IsSorted o x [] h = (tt, tt)
  insert_by-IsSorted o x (y ∷ ys) h = elim (Bool-cases (le x y)) [
    | inl first ↦ rw first ((first, All-trans o x y ys first h.0), h)
    | inr later ↦ rw later (
      insert_by-All (λ z. le y z ≡ true) x ys (o.total x y later) h.0,
      insert_by-IsSorted o x ys h.1,
    )
  ]

  pub sort_by-IsSorted : IsOrder le → (xs : List A) → IsSorted (sort_by le xs)
  unfolding sort_by
  sort_by-IsSorted o [] = tt
  sort_by-IsSorted o (x ∷ xs) = insert_by-IsSorted o x (sort_by le xs) (sort_by-IsSorted o xs)

  insert_by-Among : (a x : A) (ys : List A) → (a ≡ x) ⊎ Among a ys → Among a (insert_by le x ys)
  unfolding insert_by
  insert_by-Among a x [] (inl e) = inl (sym e)
  insert_by-Among a x [] (inr m) = elim m [ ]
  insert_by-Among a x (y ∷ ys) h = elim (Bool-cases (le x y)) [
    | inl first ↦ rw first (front h)
    | inr later ↦ rw later (back h (insert_by-Among a x ys))
  ]
    where
      front : (a ≡ x) ⊎ Among a (y ∷ ys) → Among a (x ∷ y ∷ ys)
      front (inl e) = inl (sym e)
      front (inr m) = inr m

      back :
          (a ≡ x) ⊎ Among a (y ∷ ys)
          → ((a ≡ x) ⊎ Among a ys → Among a (insert_by le x ys))
          → Among a (y ∷ insert_by le x ys)
      back (inl e) ih = inr (ih (inl e))
      back (inr (inl e)) ih = inl e
      back (inr (inr m)) ih = inr (ih (inr m))

  pub sort_by-Among : (a : A) (xs : List A) → Among a xs → Among a (sort_by le xs)
  unfolding sort_by
  sort_by-Among a [] m = elim m [ ]
  sort_by-Among a (x ∷ xs) (inl e) = insert_by-Among a x (sort_by le xs) (inl (sym e))
  sort_by-Among a (x ∷ xs) (inr m) =
      insert_by-Among a x (sort_by le xs) (inr (sort_by-Among a xs m))
