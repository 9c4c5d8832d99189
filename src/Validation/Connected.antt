-- ===== src/Validation/Connected.antt =====
-- What the connectivity check reports, `_validate_connectivity` of
-- app/services/workflow_validation_service.py.
use multi_agent_ai_platform.Base.{
  ℕ, suc, ◌+◌, ◌≡◌, refl, sym, ◌∙◌, inl, inr, Bool, true, false, not, ◌&&◌, ◌||◌, some, List, [],
  ◌∷◌, ◌++◌, if◌then◌else◌, ltb, ◌==◌, ==_iff, length, arith, Bool-cases, subst, Among, zero,
}
use multi_agent_ai_platform.Schema.{Node, Edge}
use multi_agent_ai_platform.Validation.{
  Arc, has, arc, targets, bfs, search, Issue, not_connected, forward, backward, ids, missed,
  arcs_known, linked, unlinked, validate_connectivity,
}
use multi_agent_ai_platform.Validation.Search.{Walk, stay, go, ReachedFrom, search_exact}
use multi_agent_ai_platform.Validation.Checks.{missed_sound, missed_complete, arc-backward}

abbrev distinct : List ℕ → Bool
distinct [] = true
distinct (x ∷ xs) = not (has x xs) && distinct xs

abbrev without : ℕ → List ℕ → List ℕ
without x [] = []
without x (y ∷ ys) = let rest = without x ys in if y == x then ys else y ∷ rest

bfs-distinct :
    (fuel : ℕ) (arcs : List Arc) (queue visited : List ℕ)
    → distinct visited ≡ true
    → distinct (bfs fuel arcs queue visited) ≡ true
unfolding bfs
bfs-distinct zero arcs queue visited h = h
bfs-distinct (suc fuel) arcs [] visited h = h
bfs-distinct (suc fuel) arcs (n ∷ queue) visited h = elim (Bool-cases (has n visited)) [
  | inl seen ↦ rw seen (bfs-distinct fuel arcs queue visited h)
  | inr fresh ↦
      rw fresh (
        bfs-distinct fuel arcs (queue ++ targets n (n ∷ visited) arcs) (n ∷ visited) (ground arith))
]

length-without : (x : ℕ) (ys : List ℕ) → has x ys ≡ true → length ys ≡ suc (length (without x ys))
length-without x [] h = cc
length-without x (y ∷ ys) h = ground (arith, length-without x ys)

has-without :
    (t x : ℕ) (ys : List ℕ) → (x == t) ≡ false → has t ys ≡ true → has t (without x ys) ≡ true
has-without t x [] other h = h
has-without t x (y ∷ ys) other h = elim (Bool-cases (y == x)) [
  | inl same ↦
      let e : (y == t) ≡ false = subst (λ k. (k == t) ≡ false) (sym ((==_iff y x).0 same)) other in
      ground arith
  | inr differs ↦ ground (arith, has-without t x ys other)
]

-- Distinct members of a list that leave one out are fewer.
distinct_missing_fewer :
    (xs ys : List ℕ) (z : ℕ)
    → distinct xs ≡ true
    → ((x : ℕ) → has x xs ≡ true → has x ys ≡ true)
    → has z ys ≡ true
    → has z xs ≡ false
    → ltb (length xs) (length ys) ≡ true
distinct_missing_fewer [] [] z d within h fresh = cc
distinct_missing_fewer [] (y ∷ ys) z d within h fresh = ground arith
distinct_missing_fewer (x ∷ xs) ys z d within h fresh =
    let here : has x ys ≡ true = within x (ground arith) in
    let other : (x == z) ≡ false = ground arith in
    let rest : ltb (length xs) (length (without x ys)) ≡ true =
      distinct_missing_fewer xs (without x ys) z (ground arith)
        (λ t m. elim (Bool-cases (x == t)) [
          | inl same ↦
              let gone : has t xs ≡ false =
                subst (λ k. has k xs ≡ false) ((==_iff x t).0 same) (ground arith) in
              absurd (ground arith)
          | inr differs ↦ has-without t x ys differs (within t (ground arith))
        ])
        (has-without z x ys other h) (ground arith) in
    ground (arith, length-without x ys here)

arc-append : (a b : ℕ) (xs ys : List Arc) → arc a b (xs ++ ys) ≡ (arc a b xs || arc a b ys)
arc-append a b [] ys = refl
arc-append a b (x ∷ xs) ys = ground (arith, arc-append a b xs ys)

linked_sym : (edges : List Edge) (a b : ℕ) → arc a b (linked edges) ≡ arc b a (linked edges)
linked_sym edges a b = ground (
  arith,
  arc-append a b (forward edges) (backward edges),
  arc-append b a (forward edges) (backward edges),
  arc-backward edges a b,
  arc-backward edges b a,
)

arc-known :
    (arcs : List Arc) (nodes : List ℕ) (a b : ℕ)
    → arcs_known arcs nodes ≡ true
    → arc a b arcs ≡ true
    → has a nodes ≡ true
arc-known [] nodes a b known h = cc
arc-known (x ∷ arcs) nodes a b known h = elim (Bool-cases (x.0 == a)) [
  | inl same ↦ subst (λ k. has k nodes ≡ true) ((==_iff x.0 a).0 same) (ground arith)
  | inr other ↦ arc-known arcs nodes a b (ground arith) (ground arith)
]

Walk-known :
    (edges : List Edge) (nodes : List ℕ) {s t : ℕ}
    → arcs_known (linked edges) nodes ≡ true
    → has s nodes ≡ true
    → Walk (linked edges) s t
    → has t nodes ≡ true
Walk-known edges nodes known h (stay _) = h
Walk-known edges nodes known h (go {a} {b} c w step) =
    arc-known (linked edges) nodes c b known (linked_sym edges c b ∙ step)

-- The test of the number of visited nodes lets no unvisited node slip.
unlinked-missed :
    (edges : List Edge) (first id : ℕ) (rest : List ℕ)
    → arcs_known (linked edges) (first ∷ rest) ≡ true
    → has id (first ∷ rest) ≡ true
    → has id (search (linked edges) (first ∷ [])) ≡ false
    → unlinked (search (linked edges) (first ∷ [])) (first ∷ rest)
      ≡ missed not_connected (search (linked edges) (first ∷ [])) (first ∷ rest)
unlinked-missed edges first id rest known h unseen =
    let fewer =
      distinct_missing_fewer (search (linked edges) (first ∷ [])) (first ∷ rest) id
        (bfs-distinct (1 + length (linked edges)) (linked edges) (first ∷ []) [] refl)
        (λ x m.
          let r = (search_exact (linked edges) (first ∷ []) x).0 m in
          Walk-known edges (first ∷ rest) known (ground arith) r.2)
        h unseen in
    rw fewer refl

-- The nodes that a path along the edges, in either direction, links to the first node.
abbrev pub Connected : ℕ → List Edge → ℕ → Type 0
Connected first edges id = ReachedFrom (linked edges) (first ∷ []) id

unlinked_sound :
    (visited nodes : List ℕ) (id : ℕ)
    → Among (not_connected id) (unlinked visited nodes)
    → has id visited ≡ false
unlinked_sound visited nodes id m = elim (Bool-cases (ltb (length visited) (length nodes))) [
  | inl fewer ↦ missed_sound not_connected visited nodes id (λ n. refl) (rw fewer at m)
  | inr all ↦ absurd (rw all at m)
]

unlinked-exact :
    (edges : List Edge) (first id : ℕ) (rest : List ℕ) (issues : List Issue)
    → arcs_known (linked edges) (first ∷ rest) ≡ true
    → unlinked (search (linked edges) (first ∷ [])) (first ∷ rest) ≡ issues
    → has id (first ∷ rest) ≡ true
    → (Among (not_connected id) issues → Connected first edges id → ⊥)
      × ((Among (not_connected id) issues → ⊥) → Connected first edges id)
unlinked-exact edges first id rest issues known e h = (
  λ m r.
      let unseen =
        unlinked_sound (search (linked edges) (first ∷ [])) (first ∷ rest) id
          (subst (Among (not_connected id)) (sym e) m) in
      let seen = (search_exact (linked edges) (first ∷ []) id).1 r in ground arith,
  λ unreported. elim (Bool-cases (has id (search (linked edges) (first ∷ [])))) [
    | inl seen ↦ (search_exact (linked edges) (first ∷ []) id).0 seen
    | inr unseen ↦ absurd (
        unreported (
          subst (Among (not_connected id))
            (sym (unlinked-missed edges first id rest known h unseen) ∙ e)
            (missed_complete not_connected (search (linked edges) (first ∷ [])) (first ∷ rest) id h
              unseen)))
  ],
)

-- If the connectivity check of a graph whose first node is `first` ends without a KeyError, then it
-- reports a node of the graph exactly when no path along the edges, each taken in either direction,
-- links it to the first node.
pub connectivity_exact :
    (first : Node) (rest : List Node) (edges : List Edge) (issues : List Issue) (id : ℕ)
    → validate_connectivity (first ∷ rest) edges ≡ some issues
    → has id (ids (first ∷ rest)) ≡ true
    → (Among (not_connected id) issues → Connected first.id edges id → ⊥)
      × ((Among (not_connected id) issues → ⊥) → Connected first.id edges id)
unfolding validate_connectivity
connectivity_exact first [] edges issues id h node =
    let same : first.id ≡ id = (==_iff first.id id).0 (ground arith) in
    (
      λ m r. let e : [] ≡ issues = cc in absurd (subst (Among (not_connected id)) (sym e) m),
      λ unreported.
          (first.id, ground arith, subst (Walk (linked edges) first.id) same (stay first.id)),
    )
connectivity_exact first (second ∷ rest) edges issues id h node =
    unlinked-exact edges first.id id (ids (second ∷ rest)) issues (ground arith) (ground arith) node
