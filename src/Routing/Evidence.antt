-- ===== src/Routing/Evidence.antt =====
-- Routing evidence, app/routing_evidence.py: the profile of each candidate, counted from the calls and
-- the evaluations of the same project and role. A share is a fraction, compared exactly. Latencies, tokens and
-- costs, which no order reads, are left out.
use multi_agent_ai_platform.Base.{
  ℕ, zero, suc, ◌+◌, ◌-◌, ◌*◌, Bool, true, false, ◌&&◌, ◌||◌, Option, none, some, List, [], ◌∷◌,
  ◌++◌, ltb, leb, ◌==◌, if◌then◌else◌, find_where, select_where, update_where, exists_where,
  sort_by, map,
}

pub data CallStatus : Type 0 where
  pending running success error timeout : CallStatus

pub data ErrorCategory : Type 0 where
  connection_error provider_timeout invalid_response other_category : ErrorCategory

pub data Finding : Type 0 where
  met partial not_met not_applicable : Finding

pub record Share : Type 0 where
  pub num : ℕ
  pub den : ℕ

pub record EvidenceConfig : Type 0 where
  pub history_window : ℕ
  pub max_history_rows : ℕ
  pub min_observations : ℕ
  pub max_provider_failure_rate : Share
  pub min_evaluated_runs : ℕ
  pub positive_met_share : Share
  pub negative_not_met_share : Share

pub record RoutingContext : Type 0 where
  pub project_id : ℕ
  pub agent_role : ℕ

pub record EvidenceProfile : Type 0 where
  pub provider_model_id : ℕ
  pub completed : ℕ
  pub provider_failures : ℕ
  pub other_failures : ℕ
  pub evaluated_runs : ℕ
  pub met_count : ℕ
  pub partial_count : ℕ
  pub not_met_count : ℕ
  pub not_applicable_count : ℕ
  pub last_observed_at : Option ℕ

abbrev pub empty_profile : ℕ → EvidenceProfile
empty_profile provider_model_id = record {
  provider_model_id = provider_model_id;
  completed = 0;
  provider_failures = 0;
  other_failures = 0;
  evaluated_runs = 0;
  met_count = 0;
  partial_count = 0;
  not_met_count = 0;
  not_applicable_count = 0;
  last_observed_at = none;
}

abbrev pub observations : EvidenceProfile → ℕ
observations p = p.completed + p.provider_failures

abbrev pub judged : EvidenceProfile → ℕ
judged p = p.met_count + p.partial_count + p.not_met_count

-- `part / whole > share` and `part / whole >= share`, for a whole that is not 0.
abbrev pub exceeds : ℕ → ℕ → Share → Bool
exceeds part whole share = ltb (share.num * whole) (part * share.den)

abbrev pub reaches : ℕ → ℕ → Share → Bool
reaches part whole share = leb (share.num * whole) (part * share.den)

pub data Reliability : Type 0 where
  reliable demoted too_few_calls : Reliability

pub data Quality : Type 0 where
  positive mixed negative too_few_findings : Quality

unfoldable pub reliability : EvidenceConfig → EvidenceProfile → Reliability
reliability config p =
    if ltb (observations p) config.min_observations
    then too_few_calls
    else if exceeds p.provider_failures (observations p) config.max_provider_failure_rate
    then demoted
    else reliable

unfoldable pub quality : EvidenceConfig → EvidenceProfile → Quality
quality config p =
    if ltb p.evaluated_runs config.min_evaluated_runs || judged p == 0
    then too_few_findings
    else if reaches p.not_met_count (judged p) config.negative_not_met_share
    then negative
    else if reaches p.met_count (judged p) config.positive_met_share
    then positive
    else mixed

abbrev pub reliability_rank : Reliability → ℕ
reliability_rank demoted = 1
reliability_rank _ = 0

abbrev pub quality_rank : Quality → ℕ
quality_rank positive = 0
quality_rank negative = 2
quality_rank _ = 1

unfoldable pub sort_key : EvidenceConfig → EvidenceProfile → List ℕ
sort_key config p = reliability_rank (reliability config p) ∷ quality_rank (quality config p) ∷ []

abbrev pub is_known_reliability : Reliability → Bool
is_known_reliability too_few_calls = false
is_known_reliability _ = true

abbrev pub is_known_quality : Quality → Bool
is_known_quality too_few_findings = false
is_known_quality _ = true

unfoldable pub is_sufficient : EvidenceConfig → EvidenceProfile → Bool
is_sufficient config p =
    is_known_reliability (reliability config p) || is_known_quality (quality config p)

-- A row of `model_calls`, joined with its agent's role and its task's project.
pub record ModelCall : Type 0 where
  pub id : ℕ
  pub agent_run_id : ℕ
  pub provider_model_id : ℕ
  pub agent_role : ℕ
  pub project_id : ℕ
  pub status : CallStatus
  pub error_category : Option ErrorCategory
  pub started_at : ℕ

pub record EvaluationRow : Type 0 where
  pub id : ℕ
  pub subject_agent_run_id : ℕ
  pub is_completed : Bool

pub record CriterionResult : Type 0 where
  pub id : ℕ
  pub evaluation_run_id : ℕ
  pub finding : Finding

pub record History : Type 0 where
  pub calls : List ModelCall
  pub evaluations : List EvaluationRow
  pub results : List CriterionResult

abbrev pub take_first {ℓ} : {A : Type ℓ} → ℕ → List A → List A
take_first zero xs = []
take_first (suc limit) [] = []
take_first (suc limit) (x ∷ xs) = x ∷ take_first limit xs

abbrev pub is_among : ℕ → List ℕ → Bool
is_among id ids = exists_where (λ i. i == id) ids

-- `_scope`, the candidates and the window.
abbrev pub in_scope : RoutingContext → List ℕ → ℕ → ModelCall → Bool
in_scope context ids since call =
    call.agent_role == context.agent_role
    && (call.project_id == context.project_id
        && (is_among call.provider_model_id ids && leb since call.started_at))

abbrev pub is_finished_call : CallStatus → Bool
is_finished_call CallStatus.success = true
is_finished_call CallStatus.error = true
is_finished_call CallStatus.timeout = true
is_finished_call _ = false

-- `ORDER BY started_at DESC, id`
abbrev pub call_le : ModelCall → ModelCall → Bool
call_le a b = ltb b.started_at a.started_at || a.started_at == b.started_at && leb a.id b.id

unfoldable pub scoped_calls :
    EvidenceConfig → RoutingContext → List ℕ → ℕ → History → List ModelCall
scoped_calls config context ids since history = take_first config.max_history_rows (
    sort_by call_le (
      select_where (λ call. in_scope context ids since call && is_finished_call call.status)
        history.calls))

abbrev pub later : ℕ → Option ℕ → Option ℕ
later t none = some t
later t (some last) = if ltb last t then some t else some last

abbrev pub is_provider_failure : CallStatus → Option ErrorCategory → Bool
is_provider_failure CallStatus.timeout category = true
is_provider_failure _ none = false
is_provider_failure _ (some other_category) = false
is_provider_failure _ (some _) = true

abbrev pub observe_status : CallStatus → Option ErrorCategory → EvidenceProfile → EvidenceProfile
observe_status CallStatus.success category p = record p { completed = suc p.completed }
observe_status status category p =
    if is_provider_failure status category
    then record p { provider_failures = suc p.provider_failures }
    else record p { other_failures = suc p.other_failures }

abbrev pub observe : ModelCall → EvidenceProfile → EvidenceProfile
observe call p =
    observe_status call.status call.error_category
      (record p { last_observed_at = later call.started_at p.last_observed_at })

unfoldable pub count_calls : List ModelCall → List EvidenceProfile → List EvidenceProfile
count_calls [] profiles = profiles
count_calls (call ∷ rest) profiles =
    count_calls rest
      (update_where (λ p. p.provider_model_id == call.provider_model_id) (observe call) profiles)

-- A row of the second query: the call, its evaluation and one finding.
pub record FindingRow : Type 0 where
  pub provider_model_id : ℕ
  pub started_at : ℕ
  pub evaluation_run_id : ℕ
  pub result_id : ℕ
  pub finding : Finding

abbrev pub finding_rows : ModelCall → EvaluationRow → List CriterionResult → List FindingRow
finding_rows call evaluation [] = []
finding_rows call evaluation (result ∷ rest) =
    let others = finding_rows call evaluation rest in
    if result.evaluation_run_id == evaluation.id
    then record {
      provider_model_id = call.provider_model_id;
      started_at = call.started_at;
      evaluation_run_id = evaluation.id;
      result_id = result.id;
      finding = result.finding;
    }
      ∷ others
    else others

abbrev pub evaluated_rows : ModelCall → List CriterionResult → List EvaluationRow → List FindingRow
evaluated_rows call results [] = []
evaluated_rows call results (evaluation ∷ rest) =
    let others = evaluated_rows call results rest in
    if evaluation.subject_agent_run_id == call.agent_run_id && evaluation.is_completed
    then finding_rows call evaluation results ++ others
    else others

abbrev pub rows_of_calls : History → List ModelCall → List FindingRow
rows_of_calls history [] = []
rows_of_calls history (call ∷ rest) =
    evaluated_rows call history.results history.evaluations ++ rows_of_calls history rest

-- `ORDER BY started_at DESC, evaluation_run.id, result.id`
abbrev pub finding_le : FindingRow → FindingRow → Bool
finding_le a b =
    ltb b.started_at a.started_at
    || a.started_at == b.started_at
      && (ltb a.evaluation_run_id b.evaluation_run_id
          || a.evaluation_run_id == b.evaluation_run_id && leb a.result_id b.result_id)

abbrev pub is_success : CallStatus → Bool
is_success CallStatus.success = true
is_success _ = false

unfoldable pub scoped_findings :
    EvidenceConfig → RoutingContext → List ℕ → ℕ → History → List FindingRow
scoped_findings config context ids since history = take_first config.max_history_rows (
    sort_by finding_le (
      rows_of_calls history (
        select_where (λ call. in_scope context ids since call && is_success call.status)
          history.calls)))

abbrev pub add_finding : Finding → EvidenceProfile → EvidenceProfile
add_finding Finding.met p = record p { met_count = suc p.met_count }
add_finding Finding.partial p = record p { partial_count = suc p.partial_count }
add_finding Finding.not_met p = record p { not_met_count = suc p.not_met_count }
add_finding Finding.not_applicable p = record p {
  not_applicable_count = suc p.not_applicable_count;
}

abbrev pub judge : Bool → Finding → EvidenceProfile → EvidenceProfile
judge seen finding p =
    add_finding finding (if seen then p else record p { evaluated_runs = suc p.evaluated_runs })

-- `seen_runs` holds the evaluations that were counted.
unfoldable pub count_findings :
    List ℕ → List FindingRow → List EvidenceProfile → List EvidenceProfile
count_findings seen_runs [] profiles = profiles
count_findings seen_runs (row ∷ rest) profiles =
    count_findings (row.evaluation_run_id ∷ seen_runs) rest (
      update_where (λ p. p.provider_model_id == row.provider_model_id)
        (judge (is_among row.evaluation_run_id seen_runs) row.finding) profiles)

-- `now - history_window` stops at 0, before which there is no call.
unfoldable pub load_evidence :
    EvidenceConfig → RoutingContext → List ℕ → ℕ → History → List EvidenceProfile
load_evidence config context ids now history =
    let since = now - config.history_window in
    count_findings [] (scoped_findings config context ids since history)
      (count_calls (scoped_calls config context ids since history) (map empty_profile ids))

abbrev pub profile_or : ℕ → Option EvidenceProfile → EvidenceProfile
profile_or id none = empty_profile id
profile_or id (some p) = p

abbrev pub profile_of : List EvidenceProfile → ℕ → EvidenceProfile
profile_of profiles id = profile_or id (find_where (λ p. p.provider_model_id == id) profiles)
