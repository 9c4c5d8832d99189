-- ===== src/Routing/Selection.antt =====
-- The selections of the automatic and of the manual router.
use multi_agent_ai_platform.Base.{
  ℕ, ◌≡◌, ◌↔◌, refl, sym, ◌∙◌, ap, subst, inl, inr, Bool, true, false, Option, none, some, List, [],
  ◌∷◌, ◌==◌, find_where, select_where, arith, Bool-cases, Among, select_where-Among,
  Among-select_where, find-key,
}
use multi_agent_ai_platform.Routing.Catalog.{
  FreePolicy, ExclusionReason, ProviderModel, Model, Provider, Candidate, catalog_exclusions,
  Catalog, candidate_of, join, all_candidates,
}
use multi_agent_ai_platform.Routing.Evidence.{RoutingContext}
use multi_agent_ai_platform.Routing.Route.{
  Verdict, RoutingDb, Routed, refusal, is_eligible, eligible_candidates, excluded_candidates,
  Ordered, apply_evidence, decision, route_auto, manual_verdict, manual_candidate, join_row,
  route_manual,
}
use multi_agent_ai_platform.Routing.Choice.{
  Ranked, Ranked-trans, eligible-Ranked, Moved, kept_order, reordered, is_applied, apply-Moved,
}
use multi_agent_ai_platform.Routing.Policy.{
  selected_of, evidence_of, eligible_of, Respects, eligible-invokable, first_least, respects,
}

abbrev head_of : List Candidate → Option Candidate
head_of [] = none
head_of (c ∷ rest) = some c

selected-head :
    (policy : FreePolicy) (excluded : List Verdict) (o : Ordered) (xs : List Candidate)
    (pick : Candidate)
    → selected_of (decision policy excluded o xs) ≡ some pick
    → (rest : List Candidate) × (xs ≡ pick ∷ rest)
selected-head policy excluded o [] pick h = absurd (ground arith)
selected-head policy excluded o (c ∷ rest) pick h = (rest, ground arith)

ordered-Ranked :
    (policy : FreePolicy) (xs ys : List Candidate) (o : Ordered)
    → Ranked policy xs ys
    → Moved policy ys o
    → Ranked policy xs o.candidates
ordered-Ranked policy xs ys o r (kept_order same e) = subst (Ranked policy xs) (sym same) r
ordered-Ranked policy xs ys o r (reordered moved e) = Ranked-trans r moved

-- Two results with the same selection from the same candidates.
abbrev SamePick : Routed → Routed → Type 0
SamePick a b = (selected_of a ≡ selected_of b) × (eligible_of a ≡ eligible_of b)

module _ (policy : FreePolicy) (excluded : List Verdict) (o p : Ordered) where
  same_result :
      (xs ys : List Candidate)
      → xs ≡ ys
      → SamePick (decision policy excluded o xs) (decision policy excluded p ys)
  same_result [] [] e = (refl, refl)
  same_result [] (y ∷ ys) e = cc
  same_result (x ∷ xs) [] e = cc
  same_result (x ∷ xs) (y ∷ ys) e = (ap head_of e, e)

  -- Applied evidence shows, unless there is no candidate.
  reordered_result :
      (xs ys : List Candidate)
      → Ranked policy ys xs
      → is_applied o.evidence ≡ true
      → is_applied (evidence_of (decision policy excluded o xs)) ≡ false
      → SamePick (decision policy excluded o xs) (decision policy excluded p ys)
  reordered_result [] [] r e h = (refl, refl)
  reordered_result [] (y ∷ ys) r e h = absurd (r.kept y (inl refl))
  reordered_result (x ∷ xs) ys r e h = absurd (ground arith)

  unmoved :
      (ys : List Candidate)
      → Moved policy ys o
      → is_applied (evidence_of (decision policy excluded o o.candidates)) ≡ false
      → SamePick (decision policy excluded o o.candidates) (decision policy excluded p ys)
  unmoved ys (kept_order same e) h = same_result o.candidates ys same
  unmoved ys (reordered r e) h = reordered_result o.candidates ys r e h

module _ (db : RoutingDb) (policy : FreePolicy) (context : Option RoutingContext) (now : ℕ) where
  abbrev ordered : Ordered
  ordered = apply_evidence db policy context now (eligible_candidates policy db.catalog)

  all-Ranked :
      Ranked policy
        (select_where (is_eligible policy) (all_candidates db.catalog))
        ordered.candidates
  all-Ranked =
      ordered-Ranked policy (select_where (is_eligible policy) (all_candidates db.catalog))
        (eligible_candidates policy db.catalog) ordered (eligible-Ranked policy db.catalog)
        (apply-Moved db policy (eligible_candidates policy db.catalog) context now)

  -- If automatic routing selects a model, then the model is one of the catalog's offerings, its model is
  -- ACTIVE and neither its provider nor the offering is DOWN, and, whatever the evidence says, it respects
  -- the policy: FREE_ONLY selects a FREE model; PREFER_FREE a FREE one, or a PAID one if no offering
  -- that can be invoked is FREE; ANY selects one of UNKNOWN price only if every offering that can be
  -- invoked is.
  pub auto_selection_within_policy :
      (pick : Candidate)
      → selected_of (route_auto db policy context now) ≡ some pick
      → Among pick (all_candidates db.catalog)
        × (catalog_exclusions pick ≡ [])
        × Respects policy pick (all_candidates db.catalog)
  unfolding route_auto
  auto_selection_within_policy pick h =
      let (rest, e) =
        selected-head policy (excluded_candidates policy db.catalog) ordered ordered.candidates pick
          h in
      let ranked =
        subst (Ranked policy (select_where (is_eligible policy) (all_candidates db.catalog))) e
          all-Ranked in
      let (among, open_pick) =
        select_where-Among (is_eligible policy) (all_candidates db.catalog) pick
          (ranked.none_new pick (inl refl)) in
      let (invokable, allowed) = eligible-invokable policy pick open_pick in
      (
        among,
        invokable,
        respects policy pick (all_candidates db.catalog) allowed (λ c m fine.
            first_least policy pick rest c ranked.sorted (
              ranked.kept c
                (Among-select_where (is_eligible policy) (all_candidates db.catalog) c m fine))),
      )

  -- If automatic routing selects a model without applying evidence (there is none, it cannot be read, or
  -- no candidate has enough), then it selects what it selects with no context, from the same candidates
  -- in the same order.
  pub without_evidence_is_the_tie_break :
      is_applied (evidence_of (route_auto db policy context now)) ≡ false
      → (selected_of (route_auto db policy context now)
          ≡ selected_of (route_auto db policy none now))
        × (eligible_of (route_auto db policy context now)
            ≡ eligible_of (route_auto db policy none now))
  unfolding route_auto apply_evidence
  without_evidence_is_the_tie_break h =
      unmoved policy (excluded_candidates policy db.catalog) ordered
        (apply_evidence db policy none now (eligible_candidates policy db.catalog))
        (eligible_candidates policy db.catalog)
        (apply-Moved db policy (eligible_candidates policy db.catalog) context now) h

  -- Automatic routing selects nothing exactly when every offering of the catalog is excluded, by the
  -- catalog or by the policy, and its code is then NO_ELIGIBLE_MODEL.
  pub auto_refuses_exactly :
      (route_auto db policy context now ≡ refusal ExclusionReason.no_eligible_model)
      ↔ ((c : Candidate) → Among c (all_candidates db.catalog) → is_eligible policy c ≡ false)
  unfolding route_auto
  auto_refuses_exactly = (
    λ refused c m. elim (Bool-cases (is_eligible policy c)) [
      | inr out ↦ out
      | inl fine ↦ absurd (
          refused-empty ordered.candidates refused c (
            all-Ranked.kept c
              (Among-select_where (is_eligible policy) (all_candidates db.catalog) c m fine)))
    ],
    λ out. empty-refused ordered.candidates (λ c m.
        let (among, fine) =
          select_where-Among (is_eligible policy) (all_candidates db.catalog) c
            (all-Ranked.none_new c m) in
        absurd (clash (is_eligible policy c) fine (out c among))),
  )
    where
      clash : (b : Bool) → b ≡ true → b ≡ false → ⊥
      clash true h k = cc
      clash false h k = cc

      refused-empty :
          (xs : List Candidate)
          → decision policy (excluded_candidates policy db.catalog) ordered xs
            ≡ refusal ExclusionReason.no_eligible_model
          → (c : Candidate) → Among c xs
          → ⊥
      refused-empty [] h c m = elim m [ ]
      refused-empty (x ∷ xs) h c m = cc

      empty-refused :
          (xs : List Candidate)
          → ((c : Candidate) → Among c xs → ⊥)
          → decision policy (excluded_candidates policy db.catalog) ordered xs
            ≡ refusal ExclusionReason.no_eligible_model
      empty-refused [] h = refl
      empty-refused (x ∷ xs) h = absurd (h x (inl refl))

candidate-model :
    (pm : ProviderModel) (m : Option Model) (p : Option Provider) (c : Candidate)
    → candidate_of pm m p ≡ some c
    → c.provider_model ≡ pm
candidate-model pm none p c h = absurd (ground arith)
candidate-model pm (some m) none c h = absurd (ground arith)
candidate-model pm (some m) (some p) c h = ground arith

-- Manual routing selects the offering with the requested id or nothing: if it selects one, then that id
-- is its own, its model is ACTIVE and neither its provider nor the offering is DOWN.
pub manual_selection_is_never_substituted :
    (catalog : Catalog) (provider_model_id : ℕ) (pick : Candidate)
    → selected_of (route_manual catalog provider_model_id) ≡ some pick
    → (pick.provider_model.id ≡ provider_model_id) × (catalog_exclusions pick ≡ [])
unfolding route_manual
manual_selection_is_never_substituted catalog id pick h =
    by_row (find_where (λ (pm : ProviderModel). pm.id == id) catalog.provider_models) refl h
  where
    by_reasons :
        (c : Candidate) (reasons : List ExclusionReason)
        → selected_of (manual_verdict c reasons) ≡ some pick
        → (c ≡ pick) × (reasons ≡ [])
    by_reasons c [] h = (ground arith, refl)
    by_reasons c (r ∷ rest) h = absurd (ground arith)

    by_candidate :
        (o : Option Candidate)
        → selected_of (manual_candidate o) ≡ some pick
        → (o ≡ some pick) × (catalog_exclusions pick ≡ [])
    by_candidate none h = absurd (ground arith)
    by_candidate (some c) h =
        let (same, fine) = by_reasons c (catalog_exclusions c) h in
        (ap some same, subst (λ x. catalog_exclusions x ≡ []) same fine)

    by_row :
        (o : Option ProviderModel)
        → find_where (λ (pm : ProviderModel). pm.id == id) catalog.provider_models ≡ o
        → selected_of (manual_candidate (join_row catalog o)) ≡ some pick
        → (pick.provider_model.id ≡ id) × (catalog_exclusions pick ≡ [])
    by_row none e h = absurd (ground arith)
    by_row (some pm) e h =
        let (joined, fine) = by_candidate (join catalog pm) h in
        (
          ap (λ (x : ProviderModel). x.id) (candidate-model pm _ _ pick joined)
              ∙ find-key (λ (x : ProviderModel). x.id) id catalog.provider_models pm e,
          fine,
        )
