-- ===== src/Samples/Routes.antt =====
-- The router on a small catalog: a FREE offering that is DOWN, a FREE one, a cheaper PAID one, and one of
-- UNKNOWN price.
use multi_agent_ai_platform.Base.{
  ℕ, ◌≡◌, ◌↔◌, refl, true, false, Option, none, some, [], ◌∷◌, Among, sort_by, insert_by,
}
use multi_agent_ai_platform.Budget.{free, paid}
use multi_agent_ai_platform.Routing.Catalog.{
  HealthStatus, ModelStatus, FreePolicy, ExclusionReason, ProviderModel, Candidate,
  classify_pricing, catalog_exclusions, policy_exclusions, tie_break_key, Catalog, join_all,
  all_candidates,
}
use multi_agent_ai_platform.Routing.Evidence.{
  EvidenceConfig, RoutingContext, CallStatus, ModelCall, reliability, quality, sort_key,
  is_sufficient, scoped_calls, scoped_findings, count_calls, count_findings, load_evidence,
}
use multi_agent_ai_platform.Routing.Route.{
  RoutingDb, refusal, exclusions, is_eligible, eligible_candidates, excluded_candidates,
  evidence_key, apply_evidence, route_auto, route_manual,
}
use multi_agent_ai_platform.Routing.Choice.{is_applied}
use multi_agent_ai_platform.Routing.Policy.{selected_of, evidence_of, eligible_of, Respects}
use multi_agent_ai_platform.Routing.Selection.{
  auto_selection_within_policy, without_evidence_is_the_tie_break, auto_refuses_exactly,
  manual_selection_is_never_substituted,
}

router : Unit {0}
unfolding sort_by insert_by classify_pricing catalog_exclusions policy_exclusions tie_break_key
    join_all reliability quality sort_key is_sufficient scoped_calls scoped_findings count_calls
    count_findings load_evidence exclusions eligible_candidates excluded_candidates evidence_key
    apply_evidence route_auto route_manual
router = tt

abbrev offering : ℕ → Option ℕ → HealthStatus → ProviderModel
offering id cost status = record {
  id = id;
  model_id = 1;
  provider_id = 2;
  cost_input_per_mtok = cost;
  cost_output_per_mtok = cost;
  availability_status = status;
}

abbrev catalog : Catalog
catalog = record {
  provider_models =
      offering 10 (some 0) HealthStatus.down
      ∷ offering 11 (some 3) HealthStatus.up
      ∷ offering 12 none HealthStatus.up
      ∷ offering 13 (some 0) HealthStatus.degraded
      ∷ [];
  models = record { id = 1; canonical_model_id = 100; status = ModelStatus.active } ∷ [];
  providers = record { id = 2; name = some 7; health_status = HealthStatus.up } ∷ [];
}

abbrev a_candidate : ProviderModel → Candidate
a_candidate pm = record {
  provider_model = pm;
  model = record { id = 1; canonical_model_id = 100; status = ModelStatus.active };
  provider = record { id = 2; name = some 7; health_status = HealthStatus.up };
  classification = free;
}

abbrev a_call : ℕ → ℕ → CallStatus → ModelCall
a_call id provider_model_id status = record {
  id = id;
  agent_run_id = 91;
  provider_model_id = provider_model_id;
  agent_role = 4;
  project_id = 3;
  status = status;
  error_category = none;
  started_at = 90;
}

abbrev config : EvidenceConfig
config = record {
  history_window = 30;
  max_history_rows = 2000;
  min_observations = 2;
  max_provider_failure_rate = record { num = 1; den = 2 };
  min_evaluated_runs = 3;
  positive_met_share = record { num = 7; den = 10 };
  negative_not_met_share = record { num = 3; den = 10 };
}

-- The FREE offering 13 has timed out twice.
abbrev db : RoutingDb
db = record {
  catalog = catalog;
  policies = record { id = 1; version = 1; is_active = true; config = some config } ∷ [];
  history = record {
    calls =
        a_call 1 13 CallStatus.timeout
        ∷ a_call 2 13 CallStatus.timeout
        ∷ a_call 3 11 CallStatus.success
        ∷ [];
    evaluations = [];
    results = [];
  };
  policies_up = true;
  history_up = true;
}

abbrev context : RoutingContext
context = record { project_id = 3; agent_role = 4 }

abbrev free_pick : Candidate
free_pick = a_candidate (offering 13 (some 0) HealthStatus.degraded)

abbrev paid_pick : Candidate
paid_pick = record (a_candidate (offering 11 (some 3) HealthStatus.up)) { classification = paid }

-- ANY lets the evidence prefer the PAID offering; PREFER_FREE does not.
demoted_under_any : selected_of (route_auto db FreePolicy.any (some context) 100) ≡ some paid_pick
unfolding router
demoted_under_any = refl

kept_under_prefer_free :
    selected_of (route_auto db FreePolicy.prefer_free (some context) 100) ≡ some free_pick
unfolding router
kept_under_prefer_free = refl

auto_selection_within_policy_example :
    Among free_pick (all_candidates catalog)
    × (catalog_exclusions free_pick ≡ [])
    × Respects FreePolicy.prefer_free free_pick (all_candidates catalog)
auto_selection_within_policy_example =
    auto_selection_within_policy db FreePolicy.prefer_free (some context) 100 free_pick
      kept_under_prefer_free

abbrev cold_db : RoutingDb
cold_db = record db { history = record { calls = []; evaluations = []; results = [] } }

cold : is_applied (evidence_of (route_auto cold_db FreePolicy.any (some context) 100)) ≡ false
unfolding router
cold = refl

without_evidence_is_the_tie_break_example :
    (selected_of (route_auto cold_db FreePolicy.any (some context) 100)
      ≡ selected_of (route_auto cold_db FreePolicy.any none 100))
    × (eligible_of (route_auto cold_db FreePolicy.any (some context) 100)
        ≡ eligible_of (route_auto cold_db FreePolicy.any none 100))
without_evidence_is_the_tie_break_example =
    without_evidence_is_the_tie_break cold_db FreePolicy.any (some context) 100 cold

auto_refuses_exactly_example :
    (route_auto db FreePolicy.free_only none 100 ≡ refusal ExclusionReason.no_eligible_model) ↔ (
      (c : Candidate)
      → Among c (all_candidates catalog)
      → is_eligible FreePolicy.free_only c ≡ false)
auto_refuses_exactly_example = auto_refuses_exactly db FreePolicy.free_only none 100

manual_pick : selected_of (route_manual catalog 13) ≡ some free_pick
unfolding router
manual_pick = refl

manual_selection_is_never_substituted_example :
    (free_pick.provider_model.id ≡ 13) × (catalog_exclusions free_pick ≡ [])
manual_selection_is_never_substituted_example =
    manual_selection_is_never_substituted catalog 13 free_pick manual_pick
