-- ===== src/Routing/Order.antt =====
-- The order of keys is a total order.
use multi_agent_ai_platform.Base.{ℕ, ◌≡◌, refl, true, false, List, [], ◌∷◌, arith, IsOrder}
use multi_agent_ai_platform.Routing.Catalog.{lex_le}
use multi_agent_ai_platform.Routing.Route.{by_key}

lex_total : (xs ys : List ℕ) → lex_le xs ys ≡ false → lex_le ys xs ≡ true
lex_total [] ys h = ground arith
lex_total (x ∷ xs) [] h = refl
lex_total (x ∷ xs) (y ∷ ys) h = ground (arith, lex_total xs ys)

lex_trans : (xs ys zs : List ℕ) → lex_le xs ys ≡ true → lex_le ys zs ≡ true → lex_le xs zs ≡ true
lex_trans [] ys zs h k = refl
lex_trans (x ∷ xs) [] zs h k = ground arith
lex_trans (x ∷ xs) (y ∷ ys) [] h k = k
lex_trans (x ∷ xs) (y ∷ ys) (z ∷ zs) h k = ground (arith, lex_trans xs ys zs)

pub lex_refl : (xs : List ℕ) → lex_le xs xs ≡ true
lex_refl [] = refl
lex_refl (x ∷ xs) = ground (arith, lex_refl xs)

pub by_key-IsOrder : {A : Type 0} (key : A → List ℕ) → IsOrder (by_key key)
by_key-IsOrder key = record {
  total = λ x y h. lex_total (key x) (key y) h;
  trans = λ x y z h k. lex_trans (key x) (key y) (key z) h k;
}
