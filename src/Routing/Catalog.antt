-- ===== src/Routing/Catalog.antt =====
-- The catalog as the router sees it: pricing, exclusions and the tie-break. A price is a number of the
-- smallest unit; a text is a number that keeps its order, 0 for the empty one.
use multi_agent_ai_platform.Base.{
  ℕ, Bool, true, false, not, ◌&&◌, ◌||◌, Option, none, some, List, [], ◌∷◌, ◌++◌, ltb, ◌==◌,
  if◌then◌else◌, find_where,
}
use multi_agent_ai_platform.Budget.{PricingClassification, free, paid, unknown}

pub data HealthStatus : Type 0 where
  up degraded down : HealthStatus

pub data ModelStatus : Type 0 where
  active deprecated unavailable : ModelStatus

pub data FreePolicy : Type 0 where
  free_only prefer_free any : FreePolicy

pub data ExclusionReason : Type 0 where
  model_not_found model_inactive provider_unavailable provider_model_unavailable : ExclusionReason
  not_free pricing_unknown manual_model_invalid policy_invalid no_eligible_model : ExclusionReason

pub record ProviderModel : Type 0 where
  pub id : ℕ
  pub model_id : ℕ
  pub provider_id : ℕ
  pub cost_input_per_mtok : Option ℕ
  pub cost_output_per_mtok : Option ℕ
  pub availability_status : HealthStatus

pub record Model : Type 0 where
  pub id : ℕ
  pub canonical_model_id : ℕ
  pub status : ModelStatus

pub record Provider : Type 0 where
  pub id : ℕ
  pub name : Option ℕ
  pub health_status : HealthStatus

pub record Candidate : Type 0 where
  pub provider_model : ProviderModel
  pub model : Model
  pub provider : Provider
  pub classification : PricingClassification

-- A price is never negative here, so the last line of the source is not reached.
unfoldable pub classify_pricing : Option ℕ → Option ℕ → PricingClassification
classify_pricing (some cost_in) (some cost_out) =
    if cost_in == 0 && cost_out == 0 then free else paid
classify_pricing _ _ = unknown

abbrev pub is_active_model : ModelStatus → Bool
is_active_model ModelStatus.active = true
is_active_model _ = false

abbrev pub is_down : HealthStatus → Bool
is_down HealthStatus.down = true
is_down _ = false

abbrev pub reason_if : Bool → ExclusionReason → List ExclusionReason
reason_if true reason = reason ∷ []
reason_if false reason = []

unfoldable pub catalog_exclusions : Candidate → List ExclusionReason
catalog_exclusions c =
    reason_if (not (is_active_model c.model.status)) ExclusionReason.model_inactive
    ++ reason_if (is_down c.provider.health_status) ExclusionReason.provider_unavailable
    ++ reason_if (is_down c.provider_model.availability_status)
        ExclusionReason.provider_model_unavailable

unfoldable pub policy_exclusions : FreePolicy → PricingClassification → List ExclusionReason
policy_exclusions FreePolicy.free_only paid = ExclusionReason.not_free ∷ []
policy_exclusions FreePolicy.free_only unknown = ExclusionReason.pricing_unknown ∷ []
policy_exclusions FreePolicy.prefer_free unknown = ExclusionReason.pricing_unknown ∷ []
policy_exclusions _ _ = []

-- Python compares tuples from the left.
abbrev pub lex_le : List ℕ → List ℕ → Bool
lex_le [] ys = true
lex_le (x ∷ xs) [] = false
lex_le (x ∷ xs) (y ∷ ys) = let rest = lex_le xs ys in ltb x y || x == y && rest

abbrev pub tier : PricingClassification → ℕ
tier free = 0
tier paid = 1
tier unknown = 2

-- An unknown price is infinite: above every price.
abbrev pub cost_key : Option ℕ → List ℕ
cost_key none = 1 ∷ 0 ∷ []
cost_key (some cost) = 0 ∷ cost ∷ []

abbrev pub or_empty : Option ℕ → ℕ
or_empty none = 0
or_empty (some text) = text

unfoldable pub tie_break_key : Candidate → List ℕ
tie_break_key c =
    tier c.classification ∷ cost_key c.provider_model.cost_input_per_mtok
    ++ c.model.canonical_model_id ∷ or_empty c.provider.name ∷ c.provider_model.id ∷ []

-- The catalog's tables.
pub record Catalog : Type 0 where
  pub provider_models : List ProviderModel
  pub models : List Model
  pub providers : List Provider

abbrev pub candidate_of : ProviderModel → Option Model → Option Provider → Option Candidate
candidate_of pm (some model) (some provider) = some (record {
  provider_model = pm;
  model = model;
  provider = provider;
  classification = classify_pricing pm.cost_input_per_mtok pm.cost_output_per_mtok;
})
candidate_of pm _ _ = none

-- The row's model and provider, if both are there.
abbrev pub join : Catalog → ProviderModel → Option Candidate
join catalog pm =
    candidate_of pm (find_where (λ m. m.id == pm.model_id) catalog.models)
      (find_where (λ p. p.id == pm.provider_id) catalog.providers)

abbrev pub put_first : Option Candidate → List Candidate → List Candidate
put_first none rest = rest
put_first (some c) rest = c ∷ rest

unfoldable pub join_all : Catalog → List ProviderModel → List Candidate
join_all catalog [] = []
join_all catalog (pm ∷ rest) = put_first (join catalog pm) (join_all catalog rest)

abbrev pub all_candidates : Catalog → List Candidate
all_candidates catalog = join_all catalog catalog.provider_models
