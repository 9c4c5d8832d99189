-- ===== src/Routing/Policy.antt =====
-- What a selection of the router says: how it keeps to its policy.
use multi_agent_ai_platform.Base.{
  ◌≡◌, ◌≢◌, refl, subst, ◌⊎◌, inl, inr, true, false, Option, none, some, List, [], ◌∷◌, leb, arith,
  Bool-cases, Among, All-Among, IsSorted,
}
use multi_agent_ai_platform.Budget.{PricingClassification, free, paid, unknown}
use multi_agent_ai_platform.Routing.Catalog.{
  FreePolicy, ExclusionReason, Candidate, catalog_exclusions, policy_exclusions,
}
use multi_agent_ai_platform.Routing.Route.{
  EvidenceStatus, Routed, selection, refusal, has_reason, exclusions, is_eligible,
}
use multi_agent_ai_platform.Routing.Choice.{rank}

abbrev pub selected_of : Routed → Option Candidate
selected_of (selection d) = some d.selected
selected_of (refusal reason) = none

abbrev pub evidence_of : Routed → Option EvidenceStatus
evidence_of (selection d) = d.evidence
evidence_of (refusal reason) = none

abbrev pub eligible_of : Routed → List Candidate
eligible_of (selection d) = d.eligible
eligible_of (refusal reason) = []

-- Only FREE; FREE unless nothing that can be invoked is FREE, and then PAID; anything with a known price
-- unless nothing that can be invoked has one.
abbrev pub Respects : FreePolicy → Candidate → List Candidate → Type 0
Respects FreePolicy.free_only pick candidates = pick.classification ≡ free
Respects FreePolicy.prefer_free pick candidates =
    (pick.classification ≡ free)
    ⊎ ((pick.classification ≡ paid)
        × ((c : Candidate)
            → Among c candidates
            → catalog_exclusions c ≡ []
            → c.classification ≢ free))
Respects FreePolicy.any pick candidates =
    (pick.classification ≢ unknown)
    ⊎ ((c : Candidate)
        → Among c candidates
        → catalog_exclusions c ≡ []
        → c.classification ≡ unknown)

no_reason : (reasons : List ExclusionReason) → has_reason reasons ≡ false → reasons ≡ []
no_reason [] h = refl
no_reason (r ∷ rest) h = cc

invokable-eligible :
    (policy : FreePolicy) (c : Candidate)
    → catalog_exclusions c ≡ []
    → policy_exclusions policy c.classification ≡ []
    → is_eligible policy c ≡ true
unfolding exclusions
invokable-eligible policy c h k = rw (h, k)

pub eligible-invokable :
    (policy : FreePolicy) (c : Candidate)
    → is_eligible policy c ≡ true
    → (catalog_exclusions c ≡ []) × (policy_exclusions policy c.classification ≡ [])
unfolding exclusions
eligible-invokable policy c h = elim (Bool-cases (has_reason (catalog_exclusions c))) [
  | inl bad ↦ absurd (ground arith)
  | inr fine ↦ (
    no_reason (catalog_exclusions c) fine,
    no_reason (policy_exclusions policy c.classification) (ground arith),
  )
]

-- The first of a ranked list, against any other.
pub first_least :
    (policy : FreePolicy) (pick : Candidate) (rest : List Candidate) (c : Candidate)
    → IsSorted
        (λ a b. leb (rank policy a.classification) (rank policy b.classification))
        (pick ∷ rest)
    → Among c (pick ∷ rest)
    → leb (rank policy pick.classification) (rank policy c.classification) ≡ true
first_least policy pick rest c h (inl e) =
    subst (λ x. leb (rank policy pick.classification) (rank policy x.classification) ≡ true) e
      (ground arith)
first_least policy pick rest c h (inr m) =
    All-Among (λ x. leb (rank policy pick.classification) (rank policy x.classification) ≡ true)
      rest c h.0 m

-- With a pick whose place is not behind that of any eligible candidate.
pub respects :
    (policy : FreePolicy) (pick : Candidate) (candidates : List Candidate)
    → policy_exclusions policy pick.classification ≡ []
    → ((c : Candidate)
        → Among c candidates
        → is_eligible policy c ≡ true
        → leb (rank policy pick.classification) (rank policy c.classification) ≡ true)
    → Respects policy pick candidates
unfolding policy_exclusions
respects FreePolicy.free_only pick candidates h least = only pick.classification h
  where
    only : (c : PricingClassification) → policy_exclusions FreePolicy.free_only c ≡ [] → c ≡ free
    only free e = refl
    only paid e = cc
    only unknown e = cc
respects FreePolicy.prefer_free pick candidates h least = prefer pick.classification refl
  where
    prefer :
        (x : PricingClassification)
        → pick.classification ≡ x
        → Respects FreePolicy.prefer_free pick candidates
    prefer free e = inl e
    prefer paid e = inr (
      e,
      λ c m fine f.
          let bound = least c m (invokable-eligible FreePolicy.prefer_free c fine (rw f refl)) in
          absurd (ground arith),
    )
    prefer unknown e = absurd (ground arith)
respects FreePolicy.any pick candidates h least = known pick.classification refl
  where
    is_unknown : (x : PricingClassification) → leb 1 (rank FreePolicy.any x) ≡ true → x ≡ unknown
    is_unknown unknown b = refl
    is_unknown x b = ground arith

    known :
        (x : PricingClassification)
        → pick.classification ≡ x
        → Respects FreePolicy.any pick candidates
    known unknown e = inr (λ c m fine.
        is_unknown c.classification
          (rw (rw e at (least c m (invokable-eligible FreePolicy.any c fine refl)))))
    known free e = inl (λ u. absurd (ground arith))
    known paid e = inl (λ u. absurd (ground arith))
