-- ===== src/Routing/Choice.antt =====
-- What the router may choose.
use multi_agent_ai_platform.Base.{
  ℕ, ◌≡◌, refl, inl, inr, Bool, true, false, Option, none, some, List, [], ◌∷◌, leb, select_where,
  exists_where, sort_by, arith, Bool-cases, Option-cases, Among, All, All-Among, IsSorted,
  sort_by-IsSorted, sort_by-Among, sort_by-All,
}
use multi_agent_ai_platform.Budget.{PricingClassification, free, paid, unknown}
use multi_agent_ai_platform.Routing.Catalog.{
  FreePolicy, Candidate, tier, tie_break_key, Catalog, all_candidates,
}
use multi_agent_ai_platform.Routing.Evidence.{
  EvidenceConfig, RoutingContext, EvidenceProfile, is_sufficient, load_evidence,
}
use multi_agent_ai_platform.Routing.Route.{
  EvidenceStatus, applied, RoutingDb, is_eligible, by_key, eligible_candidates, not_free_rank,
  unknown_rank, evidence_key, Ordered, order_by_evidence, ids_of, with_config, newest_policy,
  apply_evidence,
}
use multi_agent_ai_platform.Routing.Order.{by_key-IsOrder}

-- The place of a price class in the policy's boundary.
abbrev pub rank : FreePolicy → PricingClassification → ℕ
rank FreePolicy.free_only c = 0
rank FreePolicy.prefer_free c = not_free_rank c
rank FreePolicy.any c = unknown_rank c

-- A list of the given candidates whose order never crosses the boundary.
pub record Ranked (policy : FreePolicy) (eligible xs : List Candidate) : Type 0 where
  pub kept : (c : Candidate) → Among c eligible → Among c xs
  pub none_new : (c : Candidate) → Among c xs → Among c eligible
  pub sorted :
      IsSorted (λ a b. leb (rank policy a.classification) (rank policy b.classification)) xs

tier_within :
    (policy : FreePolicy) (a b : PricingClassification)
    → leb (tier a) (tier b) ≡ true
    → leb (rank policy a) (rank policy b) ≡ true
tier_within FreePolicy.free_only a b h = refl
tier_within FreePolicy.prefer_free free b h = ground arith
tier_within FreePolicy.prefer_free paid b h = ground arith
tier_within FreePolicy.prefer_free unknown b h = ground arith
tier_within FreePolicy.any free b h = ground arith
tier_within FreePolicy.any paid b h = ground arith
tier_within FreePolicy.any unknown b h = ground arith

tie_break_within :
    (policy : FreePolicy) (a b : Candidate)
    → by_key tie_break_key a b ≡ true
    → leb (rank policy a.classification) (rank policy b.classification) ≡ true
unfolding tie_break_key
tie_break_within policy a b h = tier_within policy a.classification b.classification (ground arith)

evidence_within :
    (policy : FreePolicy) (config : EvidenceConfig) (profiles : List EvidenceProfile)
    (a b : Candidate)
    → by_key (evidence_key policy config profiles) a b ≡ true
    → leb (rank policy a.classification) (rank policy b.classification) ≡ true
unfolding evidence_key
evidence_within FreePolicy.free_only config profiles a b h = refl
evidence_within FreePolicy.prefer_free config profiles a b h = ground arith
evidence_within FreePolicy.any config profiles a b h = ground arith

-- Sorted by a key that stays within the boundary.
module _ (policy : FreePolicy) (key : Candidate → List ℕ)
    (within : (a b : Candidate)
      → by_key key a b ≡ true
      → leb (rank policy a.classification) (rank policy b.classification) ≡ true) where
  All-within :
      (x : Candidate) (xs : List Candidate)
      → All (λ y. by_key key x y ≡ true) xs
      → All (λ y. leb (rank policy x.classification) (rank policy y.classification) ≡ true) xs
  All-within x [] h = tt
  All-within x (y ∷ ys) h = (within x y h.0, All-within x ys h.1)

  IsSorted-within :
      (xs : List Candidate)
      → IsSorted (by_key key) xs
      → IsSorted (λ a b. leb (rank policy a.classification) (rank policy b.classification)) xs
  IsSorted-within [] h = tt
  IsSorted-within (x ∷ xs) h = (All-within x xs h.0, IsSorted-within xs h.1)

  sort-Ranked : (xs : List Candidate) → Ranked policy xs (sort_by (by_key key) xs)
  sort-Ranked xs = record {
    kept = λ c m. sort_by-Among (by_key key) c xs m;
    none_new = λ c m.
        All-Among (λ y. Among y xs) (sort_by (by_key key) xs) c
          (sort_by-All (by_key key) (λ y. Among y xs) xs (every xs)) m;
    sorted =
        IsSorted-within (sort_by (by_key key) xs)
          (sort_by-IsSorted (by_key key) (by_key-IsOrder key) xs);
  }
    where
      weaken :
          (x : Candidate) (ys zs : List Candidate)
          → All (λ y. Among y zs) ys
          → All (λ y. Among y (x ∷ zs)) ys
      weaken x [] zs h = tt
      weaken x (y ∷ ys) zs h = (inr h.0, weaken x ys zs h.1)

      every : (ys : List Candidate) → All (λ y. Among y ys) ys
      every [] = tt
      every (y ∷ ys) = (inl refl, weaken y ys ys (every ys))

pub Ranked-trans :
    {policy : FreePolicy} {xs ys zs : List Candidate}
    → Ranked policy xs ys
    → Ranked policy ys zs
    → Ranked policy xs zs
Ranked-trans a b = record {
  kept = λ c m. b.kept c (a.kept c m);
  none_new = λ c m. a.none_new c (b.none_new c m);
  sorted = b.sorted;
}

-- The eligible candidates, in the order without evidence.
pub eligible-Ranked :
    (policy : FreePolicy) (catalog : Catalog)
    → Ranked policy
        (select_where (is_eligible policy) (all_candidates catalog))
        (eligible_candidates policy catalog)
unfolding eligible_candidates
eligible-Ranked policy catalog =
    sort-Ranked policy tie_break_key (tie_break_within policy)
      (select_where (is_eligible policy) (all_candidates catalog))

-- Without evidence nothing is moved; with it, only within the boundary.
abbrev pub is_applied : Option EvidenceStatus → Bool
is_applied (some applied) = true
is_applied _ = false

pub data Moved (policy : FreePolicy) (eligible : List Candidate) (o : Ordered) : Type 0 where
  kept_order : o.candidates ≡ eligible → is_applied o.evidence ≡ false → Moved policy eligible o
  reordered :
      Ranked policy eligible o.candidates → is_applied o.evidence ≡ true → Moved policy eligible o

module _ (db : RoutingDb) (policy : FreePolicy) (eligible : List Candidate) where
  order-Moved :
      (config : EvidenceConfig) (version : ℕ) (profiles : List EvidenceProfile)
      → Moved policy eligible (order_by_evidence policy config version profiles eligible)
  order-Moved config version profiles =
      elim (Bool-cases (exists_where (is_sufficient config) profiles)) [
        | inr cold ↦ rw cold (kept_order refl refl)
        | inl known ↦ rw known (
            reordered
              (sort-Ranked policy (evidence_key policy config profiles)
                (evidence_within policy config profiles) eligible)
              refl)
      ]

  module _ (context : RoutingContext) (now : ℕ) where
    config-Moved :
        (version : ℕ) (o : Option EvidenceConfig)
        → Moved policy eligible (with_config db policy context now version o eligible)
    config-Moved version none = kept_order refl refl
    config-Moved version (some config) = elim (Bool-cases db.history_up) [
      | inr lost ↦ rw lost (kept_order refl refl)
      | inl read ↦ rw read (
          order-Moved config version
            (load_evidence config context (ids_of eligible) now db.history))
    ]

  pub apply-Moved :
      (context : Option RoutingContext) (now : ℕ)
      → Moved policy eligible (apply_evidence db policy context now eligible)
  unfolding apply_evidence
  apply-Moved none now = kept_order refl refl
  apply-Moved (some context) now = elim (Bool-cases db.policies_up) [
    | inr lost ↦ rw lost (kept_order refl refl)
    | inl read ↦ rw read (elim (Option-cases (newest_policy db.policies)) [
      | inl absent ↦ rw absent (kept_order refl refl)
      | inr (row, found) ↦ rw found (config-Moved context now row.id row.config)
    ])
  ]
