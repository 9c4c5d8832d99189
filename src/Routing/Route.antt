-- ===== src/Routing/Route.antt =====
-- `route`, `route_manual`, `route_auto` and `_apply_evidence` of app/model_resolution.py.
use multi_agent_ai_platform.Base.{
  ℕ, Bool, true, false, not, Option, none, some, List, [], ◌∷◌, ◌++◌, map, ltb, ◌==◌, if◌then◌else◌,
  find_where, select_where, exists_where, sort_by,
}
use multi_agent_ai_platform.Budget.{PricingClassification, free, unknown}
use multi_agent_ai_platform.Routing.Catalog.{
  FreePolicy, ExclusionReason, ProviderModel, Candidate, catalog_exclusions, policy_exclusions,
  lex_le, or_empty, tie_break_key, Catalog, join, all_candidates,
}
use multi_agent_ai_platform.Routing.Evidence.{
  EvidenceConfig, RoutingContext, EvidenceProfile, sort_key, is_sufficient, History, load_evidence,
  profile_of,
}

pub data EvidenceStatus : Type 0 where
  applied insufficient unavailable disabled : EvidenceStatus

-- A row of `router_policy_versions`; `config` is `none` if `EvidenceConfig.from_json` refuses it.
pub record PolicyVersion : Type 0 where
  pub id : ℕ
  pub version : ℕ
  pub is_active : Bool
  pub config : Option EvidenceConfig

-- What routing reads. `policies_up` and `history_up` say whether the two reads of evidence succeed.
pub record RoutingDb : Type 0 where
  pub catalog : Catalog
  pub policies : List PolicyVersion
  pub history : History
  pub policies_up : Bool
  pub history_up : Bool

pub record Verdict : Type 0 where
  pub candidate : Candidate
  pub exclusion_reasons : List ExclusionReason

pub record RoutingDecision : Type 0 where
  pub requested_policy : Option FreePolicy
  pub selected : Candidate
  pub eligible : List Candidate
  pub excluded : List Verdict
  pub router_policy_version_id : Option ℕ
  pub evidence : Option EvidenceStatus

-- A refusal carries its code.
pub data Routed : Type 0 where
  selection : RoutingDecision → Routed
  refusal : ExclusionReason → Routed

abbrev pub has_reason : List ExclusionReason → Bool
has_reason [] = false
has_reason (_ ∷ _) = true

-- The catalog's reasons first; the policy's only without them.
unfoldable pub exclusions : FreePolicy → Candidate → List ExclusionReason
exclusions policy c =
    if has_reason (catalog_exclusions c)
    then catalog_exclusions c
    else policy_exclusions policy c.classification

abbrev pub is_eligible : FreePolicy → Candidate → Bool
is_eligible policy c = not (has_reason (exclusions policy c))

abbrev pub excluded_verdict : FreePolicy → Candidate → Verdict
excluded_verdict policy c = record { candidate = c; exclusion_reasons = exclusions policy c }

abbrev pub verdict_key : Verdict → List ℕ
verdict_key v =
    v.candidate.model.canonical_model_id
    ∷ or_empty v.candidate.provider.name
    ∷ v.candidate.provider_model.id
    ∷ []

abbrev pub by_key {ℓ} : {A : Type ℓ} → (A → List ℕ) → A → A → Bool
by_key key a b = lex_le (key a) (key b)

-- `eligible.sort(key=_tie_break_key)`
unfoldable pub eligible_candidates : FreePolicy → Catalog → List Candidate
eligible_candidates policy catalog =
    sort_by (by_key tie_break_key) (select_where (is_eligible policy) (all_candidates catalog))

unfoldable pub excluded_candidates : FreePolicy → Catalog → List Verdict
excluded_candidates policy catalog = sort_by (by_key verdict_key) (
    map (excluded_verdict policy)
      (select_where (λ c. not (is_eligible policy c)) (all_candidates catalog)))

abbrev pub not_free_rank : PricingClassification → ℕ
not_free_rank free = 0
not_free_rank _ = 1

abbrev pub unknown_rank : PricingClassification → ℕ
unknown_rank unknown = 1
unknown_rank _ = 0

abbrev pub boundary : FreePolicy → PricingClassification → List ℕ
boundary FreePolicy.prefer_free c = not_free_rank c ∷ []
boundary FreePolicy.any c = unknown_rank c ∷ []
boundary FreePolicy.free_only c = []

unfoldable pub evidence_key :
    FreePolicy → EvidenceConfig → List EvidenceProfile → Candidate → List ℕ
evidence_key policy config profiles c =
    boundary policy c.classification
    ++ sort_key config (profile_of profiles c.provider_model.id)
    ++ tie_break_key c

-- `ORDER BY version DESC LIMIT 1` of the active rows.
abbrev pub newer_policy : PolicyVersion → Option PolicyVersion → Option PolicyVersion
newer_policy row none = some row
newer_policy row (some best) = if ltb row.version best.version then some best else some row

abbrev pub newest_policy : List PolicyVersion → Option PolicyVersion
newest_policy [] = none
newest_policy (row ∷ rest) =
    let best = newest_policy rest in if row.is_active then newer_policy row best else best

-- The order of the candidates, with what evidence did to it.
pub record Ordered : Type 0 where
  pub candidates : List Candidate
  pub router_policy_version_id : Option ℕ
  pub evidence : Option EvidenceStatus

abbrev pub unchanged : List Candidate → Option ℕ → Option EvidenceStatus → Ordered
unchanged eligible version status = record {
  candidates = eligible;
  router_policy_version_id = version;
  evidence = status;
}

abbrev pub order_by_evidence :
    FreePolicy → EvidenceConfig → ℕ → List EvidenceProfile → List Candidate → Ordered
order_by_evidence policy config version profiles eligible =
    if exists_where (is_sufficient config) profiles
    then unchanged (sort_by (by_key (evidence_key policy config profiles)) eligible) (some version)
        (some applied)
    else unchanged eligible (some version) (some insufficient)

abbrev pub ids_of : List Candidate → List ℕ
ids_of eligible = map (λ c. c.provider_model.id) eligible

abbrev pub with_config :
    RoutingDb
    → FreePolicy
    → RoutingContext
    → ℕ
    → ℕ
    → Option EvidenceConfig
    → List Candidate
    → Ordered
with_config db policy context now version none eligible = unchanged eligible none (some unavailable)
with_config db policy context now version (some config) eligible =
    if db.history_up
    then order_by_evidence policy config version
        (load_evidence config context (ids_of eligible) now db.history) eligible
    else unchanged eligible (some version) (some unavailable)

abbrev pub with_policy :
    RoutingDb → FreePolicy → RoutingContext → ℕ → Option PolicyVersion → List Candidate → Ordered
with_policy db policy context now none eligible = unchanged eligible none (some disabled)
with_policy db policy context now (some row) eligible =
    with_config db policy context now row.id row.config eligible

-- Never raises: any failure keeps the order.
unfoldable pub apply_evidence :
    RoutingDb → FreePolicy → Option RoutingContext → ℕ → List Candidate → Ordered
apply_evidence db policy none now eligible = unchanged eligible none none
apply_evidence db policy (some context) now eligible =
    if db.policies_up
    then with_policy db policy context now (newest_policy db.policies) eligible
    else unchanged eligible none (some unavailable)

-- `eligible[0]`
abbrev pub decision : FreePolicy → List Verdict → Ordered → List Candidate → Routed
decision policy excluded ordered [] = refusal ExclusionReason.no_eligible_model
decision policy excluded ordered (pick ∷ rest) = selection (record {
  requested_policy = some policy;
  selected = pick;
  eligible = pick ∷ rest;
  excluded = excluded;
  router_policy_version_id = ordered.router_policy_version_id;
  evidence = ordered.evidence;
})

unfoldable pub route_auto : RoutingDb → FreePolicy → Option RoutingContext → ℕ → Routed
route_auto db policy context now =
    let ordered = apply_evidence db policy context now (eligible_candidates policy db.catalog) in
    decision policy (excluded_candidates policy db.catalog) ordered ordered.candidates

abbrev pub manual_verdict : Candidate → List ExclusionReason → Routed
manual_verdict c (reason ∷ _) = refusal reason
manual_verdict c [] = selection (record {
  requested_policy = none;
  selected = c;
  eligible = c ∷ [];
  excluded = [];
  router_policy_version_id = none;
  evidence = none;
})

abbrev pub manual_candidate : Option Candidate → Routed
manual_candidate none = refusal ExclusionReason.model_not_found
manual_candidate (some c) = manual_verdict c (catalog_exclusions c)

abbrev pub join_row : Catalog → Option ProviderModel → Option Candidate
join_row catalog none = none
join_row catalog (some pm) = join catalog pm

-- The source tests the three reasons in the order in which they are collected.
unfoldable pub route_manual : Catalog → ℕ → Routed
route_manual catalog provider_model_id = manual_candidate (
    join_row catalog
      (find_where (λ (pm : ProviderModel). pm.id == provider_model_id) catalog.provider_models))

-- A model policy, as far as it can be read: `mode`, and the field that the mode needs.
pub data ModelPolicy : Type 0 where
  manual : Option ℕ → ModelPolicy
  auto : Option FreePolicy → ModelPolicy
  unreadable : ModelPolicy

unfoldable pub route : RoutingDb → ModelPolicy → Option RoutingContext → ℕ → Routed
route db (manual none) context now = refusal ExclusionReason.manual_model_invalid
route db (manual (some id)) context now = route_manual db.catalog id
route db (auto none) context now = refusal ExclusionReason.policy_invalid
route db (auto (some policy)) context now = route_auto db policy context now
route db unreadable context now = refusal ExclusionReason.policy_invalid
