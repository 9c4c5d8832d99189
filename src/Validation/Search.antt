-- ===== src/Validation/Search.antt =====
-- The queue search visits exactly the nodes that a path reaches.
use multi_agent_ai_platform.Base.{
  ℕ, zero, suc, ◌+◌, ◌≤◌, ◌≡◌, refl, sym, inl, inr, true, false, not, ◌||◌, List, [], ◌∷◌, ◌++◌,
  ◌==◌, ==_iff, length, count_where, arith, Bool-cases, subst,
}
use multi_agent_ai_platform.Validation.{Arc, has, arc, targets, bfs, search}

pub data Walk (arcs : List Arc) : ℕ → ℕ → Type 0 where
  stay : (a : ℕ) → Walk arcs a a
  go : {a b : ℕ} (c : ℕ) → Walk arcs a b → arc b c arcs ≡ true → Walk arcs a c

has-append : (n : ℕ) (xs ys : List ℕ) → has n (xs ++ ys) ≡ (has n xs || has n ys)
has-append n [] ys = refl
has-append n (x ∷ xs) ys = ground (arith, has-append n xs ys)

length-append : (xs ys : List ℕ) → length (xs ++ ys) ≡ length xs + length ys
length-append [] ys = omega arith
length-append (x ∷ xs) ys = ground (arith, length-append xs ys)

-- The arcs whose source is not visited.
abbrev unvisited : List ℕ → List Arc → ℕ
unvisited visited arcs = count_where (λ a. not (has a.0 visited)) arcs

targets-has :
    (n t : ℕ) (visited : List ℕ) (arcs : List Arc)
    → arc n t arcs ≡ true
    → has t visited ≡ false
    → has t (targets n visited arcs) ≡ true
targets-has n t visited [] h fresh = cc
targets-has n t visited (a ∷ arcs) h fresh = elim (Bool-cases (a.1 == t)) [
  | inl same ↦
      let e = (==_iff a.1 t).0 same in
      let fresh' : has a.1 visited ≡ false = subst (λ x. has x visited ≡ false) (sym e) fresh in
      ground (arith, targets-has n t visited arcs)
  | inr other ↦ ground (arith, targets-has n t visited arcs)
]

targets-arc :
    (n t : ℕ) (visited : List ℕ) (arcs : List Arc)
    → has t (targets n visited arcs) ≡ true
    → arc n t arcs ≡ true
targets-arc n t visited [] h = cc
targets-arc n t visited (a ∷ arcs) h = ground (arith, targets-arc n t visited arcs)

-- Visiting `n` pays for what it queues.
targets-unvisited :
    (n : ℕ) (visited : List ℕ) (arcs : List Arc)
    → has n visited ≡ false
    → length (targets n (n ∷ visited) arcs) + unvisited (n ∷ visited) arcs ≤ unvisited visited arcs
targets-unvisited n visited [] fresh = omega arith
targets-unvisited n visited (a ∷ arcs) fresh = elim (Bool-cases (a.0 == n)) [
  | inl same ↦
      let e = (==_iff a.0 n).0 same in
      let fresh' : has a.0 visited ≡ false = subst (λ x. has x visited ≡ false) (sym e) fresh in
      ground (arith, targets-unvisited n visited arcs fresh)
  | inr other ↦ ground (arith, targets-unvisited n visited arcs fresh)
]

module _ (arcs : List Arc) where
  -- What holds of the queue and passes along arcs holds of all that is visited.
  bfs-sound :
      (P : ℕ → Type 0)
      → ((n t : ℕ) → P n → arc n t arcs ≡ true → P t)
      → (fuel : ℕ) (queue visited : List ℕ) → ((x : ℕ) → has x queue ≡ true → P x)
      → ((x : ℕ) → has x visited ≡ true → P x)
      → (x : ℕ) → has x (bfs fuel arcs queue visited) ≡ true
      → P x
  unfolding bfs
  bfs-sound P pass zero queue visited q v x h = v x h
  bfs-sound P pass (suc fuel) [] visited q v x h = v x h
  bfs-sound P pass (suc fuel) (n ∷ queue) visited q v x h =
      let p : P n = q n (ground arith) in
      let v' : (x : ℕ) → has x (n ∷ visited) ≡ true → P x = λ x h. elim (Bool-cases (n == x)) [
        | inl same ↦ subst P ((==_iff n x).0 same) p
        | inr other ↦ v x (ground arith)
      ] in
      let q' : (x : ℕ) → has x queue ≡ true → P x = λ x h. q x (ground arith) in
      let q'' : (x : ℕ) → has x (queue ++ targets n (n ∷ visited) arcs) ≡ true → P x = λ x h.
        elim (Bool-cases (has x queue)) [
          | inl old ↦ q' x old
          | inr new ↦ pass n x p (
              targets-arc n x (n ∷ visited) arcs
                (ground (arith, has-append x queue (targets n (n ∷ visited) arcs))))
        ] in
      elim (Bool-cases (has n visited)) [
        | inl seen ↦ bfs-sound P pass fuel queue visited q' v x (ground arith)
        | inr fresh ↦
            bfs-sound P pass fuel (queue ++ targets n (n ∷ visited) arcs) (n ∷ visited) q'' v' x
              (ground arith)
      ]

  -- Each arc out of a visited node leads to a visited or a queued one.
  abbrev Frontier : List ℕ → List ℕ → Type 0
  Frontier queue visited =
      (v t : ℕ) → has v visited ≡ true → arc v t arcs ≡ true → (has t visited || has t queue) ≡ true

  abbrev Complete : List ℕ → List ℕ → List ℕ → Type 0
  Complete queue visited result =
      ((x : ℕ) → (has x visited || has x queue) ≡ true → has x result ≡ true)
      × ((v t : ℕ) → has v result ≡ true → arc v t arcs ≡ true → has t result ≡ true)

  skip-Frontier :
      (n : ℕ) (queue visited : List ℕ)
      → has n visited ≡ true
      → Frontier (n ∷ queue) visited
      → Frontier queue visited
  skip-Frontier n queue visited seen f v t h a = elim (Bool-cases (n == t)) [
    | inl same ↦
        let seen' : has t visited ≡ true =
          subst (λ k. has k visited ≡ true) ((==_iff n t).0 same) seen in
        ground arith
    | inr other ↦ ground (arith, f v t h a)
  ]

  skip_found :
      (n x : ℕ) (queue visited : List ℕ)
      → has n visited ≡ true
      → (has x visited || has x (n ∷ queue)) ≡ true
      → (has x visited || has x queue) ≡ true
  skip_found n x queue visited seen h = elim (Bool-cases (n == x)) [
    | inl same ↦
        let seen' : has x visited ≡ true =
          subst (λ k. has k visited ≡ true) ((==_iff n x).0 same) seen in
        ground arith
    | inr other ↦ ground arith
  ]

  visit-Frontier :
      (n : ℕ) (queue visited : List ℕ)
      → Frontier (n ∷ queue) visited
      → Frontier (queue ++ targets n (n ∷ visited) arcs) (n ∷ visited)
  visit-Frontier n queue visited f v t h a = elim (Bool-cases (has t (n ∷ visited))) [
    | inl seen ↦ ground arith
    | inr fresh ↦ elim (Bool-cases (n == v)) [
      | inl same ↦
          let a' : arc n t arcs ≡ true =
            subst (λ k. arc k t arcs ≡ true) (sym ((==_iff n v).0 same)) a in
          ground (
            arith,
            has-append t queue (targets n (n ∷ visited) arcs),
            targets-has n t (n ∷ visited) arcs a' fresh,
          )
      | inr other ↦
          let old : has v visited ≡ true = ground arith in
          ground (arith, has-append t queue (targets n (n ∷ visited) arcs), f v t old a)
    ]
  ]

  bfs-Complete :
      (fuel : ℕ) (queue visited : List ℕ)
      → length queue + unvisited visited arcs ≤ fuel
      → Frontier queue visited
      → Complete queue visited (bfs fuel arcs queue visited)
  unfolding bfs
  bfs-Complete zero [] visited le f = (λ x h. ground arith, λ v t h a. ground (arith, f v t h a))
  bfs-Complete zero (n ∷ queue) visited le f = absurd (ground arith)
  bfs-Complete (suc fuel) [] visited le f =
      (λ x h. ground arith, λ v t h a. ground (arith, f v t h a))
  bfs-Complete (suc fuel) (n ∷ queue) visited le f = elim (Bool-cases (has n visited)) [
    | inl seen ↦ rw seen (
        let (keeps, closed) =
          bfs-Complete fuel queue visited (ground arith) (skip-Frontier n queue visited seen f) in
        (λ x h. keeps x (skip_found n x queue visited seen h), closed))
    | inr fresh ↦ rw fresh (
        let (keeps, closed) =
          bfs-Complete fuel (queue ++ targets n (n ∷ visited) arcs) (n ∷ visited)
            (ground (
              arith,
              length-append queue (targets n (n ∷ visited) arcs),
              targets-unvisited n visited arcs fresh,
            ))
            (visit-Frontier n queue visited f) in
        (
          λ x h. keeps x (ground (arith, has-append x queue (targets n (n ∷ visited) arcs))),
          closed,
        ))
  ]

  unvisited-all : (rows : List Arc) → unvisited [] rows ≡ length rows
  unvisited-all [] = refl
  unvisited-all (a ∷ rows) = ground (arith, unvisited-all rows)

  module _ (start : List ℕ) where
    -- A walk from one of the starts.
    abbrev pub ReachedFrom : ℕ → Type 0
    ReachedFrom n = (s : ℕ) × (has s start ≡ true) × Walk arcs s n

    found-reached : (n : ℕ) → has n (search arcs start) ≡ true → ReachedFrom n
    found-reached n h =
        bfs-sound ReachedFrom (λ m t r a. (r.0, r.1, go t r.2 a)) (length start + length arcs) start
          [] (λ x q. (x, q, stay x)) (λ x v. absurd (ground arith)) n h

    complete : Complete start [] (search arcs start)
    complete =
        bfs-Complete (length start + length arcs) start [] (ground (arith, unvisited-all arcs))
          (λ v t h a. absurd (ground arith))

    walked-found : {s n : ℕ} → Walk arcs s n → has s start ≡ true → has n (search arcs start) ≡ true
    walked-found (stay s) h = complete.0 s (ground arith)
    walked-found (go {a} {b} c w step) h = complete.1 b c (walked-found w h) step

    -- The search ends with exactly the nodes that some walk along the arcs reaches from a start: the
    -- rounds that it is given are enough.
    pub search_exact :
        (n : ℕ)
        → (has n (search arcs start) ≡ true → ReachedFrom n)
          × (ReachedFrom n → has n (search arcs start) ≡ true)
    search_exact n = (found-reached n, λ r. walked-found r.2 r.1)
