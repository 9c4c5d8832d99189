-- ===== src/Base/Member.antt =====
-- Membership by recursion, which the tactics read, and lists whose items differ by a relation.
use mathlib.Core.Path.{◌≡◌, refl, sym, ◌∙◌, ap, subst}
use mathlib.Core.Option.{some}
use mathlib.Core.Logic.{◌⊎◌, inl, inr}
use mathlib.Core.Bool.{Bool, true}
use mathlib.Core.List.{List, [], ◌∷◌}
use native.Mathlib.Omega.{arith}
use multi_agent_ai_platform.Base.Tests.{Bool-cases}
use multi_agent_ai_platform.Base.Table.{All, exists_where, find_where, select_where}

module _ {A : Type 0} where
  abbrev pub Any : (A → Type 0) → List A → Type 0
  Any P [] = ⊥
  Any P (x ∷ xs) = P x ⊎ Any P xs

module _ {A : Type 0} where
  abbrev pub Among : A → List A → Type 0
  Among a xs = Any (λ x. x ≡ a) xs

  pub All-Among : (P : A → Type 0) (xs : List A) (a : A) → All P xs → Among a xs → P a
  All-Among P [] a h m = elim m [ ]
  All-Among P (x ∷ xs) a h (inl e) = subst P e h.0
  All-Among P (x ∷ xs) a h (inr m) = All-Among P xs a h.1 m

  pub Any-witness : (P : A → Type 0) (xs : List A) → Any P xs → (a : A) × Among a xs × P a
  Any-witness P [] h = elim h [ ]
  Any-witness P (x ∷ xs) (inl p) = (x, inl refl, p)
  Any-witness P (x ∷ xs) (inr m) = let (a, among, p) = Any-witness P xs m in (a, inr among, p)

  pub Any-intro : (P : A → Type 0) (xs : List A) (a : A) → Among a xs → P a → Any P xs
  Any-intro P [] a m p = elim m [ ]
  Any-intro P (x ∷ xs) a (inl e) p = inl (subst P (sym e) p)
  Any-intro P (x ∷ xs) a (inr m) p = inr (Any-intro P xs a m p)

  pub exists_where-witness :
      (p : A → Bool) (xs : List A) → exists_where p xs ≡ true → (a : A) × Among a xs × (p a ≡ true)
  exists_where-witness p [] h = cc
  exists_where-witness p (x ∷ xs) h = elim (Bool-cases (p x)) [
    | inl here ↦ (x, inl refl, here)
    | inr later ↦
        let (a, among, holds) = exists_where-witness p xs (ground arith) in (a, inr among, holds)
  ]

  pub exists_where-intro :
      (p : A → Bool) (xs : List A) (a : A) → Among a xs → p a ≡ true → exists_where p xs ≡ true
  exists_where-intro p [] a m h = elim m [ ]
  exists_where-intro p (x ∷ xs) a (inl e) h = rw (rw (sym e) at h)
  exists_where-intro p (x ∷ xs) a (inr m) h = ground (arith, exists_where-intro p xs a m h)

  -- The first row of a search is a row that satisfies the test.
  pub find_where-Among :
      (p : A → Bool) (xs : List A) (a : A) → find_where p xs ≡ some a → Among a xs × (p a ≡ true)
  find_where-Among p [] a h = cc
  find_where-Among p (x ∷ xs) a h = elim (Bool-cases (p x)) [
    | inl here ↦ let e : x ≡ a = ground arith in (inl e, subst (λ y. p y ≡ true) e here)
    | inr later ↦ let (among, holds) = find_where-Among p xs a (ground arith) in (inr among, holds)
  ]

  pub find_where-hit :
      (p : A → Bool) (xs : List A) (a : A)
      → Among a xs
      → p a ≡ true
      → (found : A) × (find_where p xs ≡ some found)
  find_where-hit p [] a m h = elim m [ ]
  find_where-hit p (x ∷ xs) a m h = elim (Bool-cases (p x)) [
    | inl here ↦ (x, rw here refl)
    | inr later ↦ elim m [
      | inl e ↦ absurd (ground (arith, ap p e))
      | inr rest ↦ let (found, there) = find_where-hit p xs a rest h in (found, rw later there)
    ]
  ]

  picked :
      (p : A → Bool) (x : A) (xs : List A) (a : A)
      → p x ≡ true
      → (Among a (select_where p xs) → Among a xs × (p a ≡ true))
      → Among a (x ∷ select_where p xs)
      → Among a (x ∷ xs) × (p a ≡ true)
  picked p x xs a h rest (inl e) = (inl e, rw (← e) h)
  picked p x xs a h rest (inr m) = (inr (rest m).0, (rest m).1)

  pub select_where-Among :
      (p : A → Bool) (xs : List A) (a : A) → Among a (select_where p xs) → Among a xs × (p a ≡ true)
  select_where-Among p [] a m = elim m [ ]
  select_where-Among p (x ∷ xs) a m = elim (Bool-cases (p x)) [
    | inl here ↦ picked p x xs a here (select_where-Among p xs a) (rw here at m)
    | inr not_here ↦
        let (among, holds) = select_where-Among p xs a (rw not_here at m) in (inr among, holds)
  ]

  pub Among-select_where :
      (p : A → Bool) (xs : List A) (a : A) → Among a xs → p a ≡ true → Among a (select_where p xs)
  Among-select_where p [] a m h = elim m [ ]
  Among-select_where p (x ∷ xs) a (inl e) h = rw (rw (sym e) at h) (inl e)
  Among-select_where p (x ∷ xs) a (inr m) h = elim (Bool-cases (p x)) [
    | inl here ↦ rw here (inr (Among-select_where p xs a m h))
    | inr not_here ↦ rw not_here (Among-select_where p xs a m h)
  ]

  abbrev pub Apart : (A → A → Type 0) → List A → Type 0
  Apart R [] = Unit
  Apart R (x ∷ xs) = All (λ y. ¬ R x y) xs × Apart R xs

  pub Apart-Among :
      (R : A → A → Type 0)
      → ((x y : A) → R x y → R y x)
      → (xs : List A) (a b : A) → Apart R xs
      → Among a xs
      → Among b xs
      → R a b
      → a ≡ b
  Apart-Among R symm [] a b h ma mb r = elim ma [ ]
  Apart-Among R symm (x ∷ xs) a b h (inl e) (inl f) r = sym e ∙ f
  Apart-Among R symm (x ∷ xs) a b h (inl e) (inr mb) r =
      absurd (All-Among _ xs b h.0 mb (subst (λ z. R z b) (sym e) r))
  Apart-Among R symm (x ∷ xs) a b h (inr ma) (inl f) r =
      absurd (All-Among _ xs a h.0 ma (symm a x (subst (λ z. R a z) (sym f) r)))
  Apart-Among R symm (x ∷ xs) a b h (inr ma) (inr mb) r = Apart-Among R symm xs a b h.1 ma mb r
