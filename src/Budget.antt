-- ===== src/Budget.antt =====
-- The budget governor, app/services/budget_service.py, with the budget rows of
-- app/models/governance.py. Amounts count 10^-14 of the currency, prices for a million tokens 10^-8,
-- so that the cost of an estimate is a whole number.
pub mod Limits
pub mod Samples
use multi_agent_ai_platform.Base.{
  ℕ, Bool, true, false, ◌&&◌, Option, none, some, List, [], ◌∷◌, ◌++◌, ◌+◌, ◌*◌, leb, ◌==◌,
  if◌then◌else◌, update_where,
}

pub data PricingClassification : Type 0 where
  free paid unknown : PricingClassification

pub data ReservationStatus : Type 0 where
  active committed released : ReservationStatus

pub record Budget : Type 0 where
  pub id : ℕ
  pub limit_amount : ℕ
  pub threshold_warn_pct : ℕ
  pub threshold_critical_pct : ℕ
  pub threshold_hard_pct : ℕ

pub record Reservation : Type 0 where
  pub id : ℕ
  pub budget_id : ℕ
  pub agent_run_id : Option ℕ
  pub task_run_id : Option ℕ
  pub reserved_amount : ℕ
  pub committed_amount : Option ℕ
  pub status : ReservationStatus

pub record CostEstimate : Type 0 where
  pub amount : ℕ
  pub is_estimated : Bool

-- The settings that an estimate reads.
pub record EstimateSettings : Type 0 where
  pub unknown_pricing_reserve_amount : ℕ
  pub budget_estimate_tokens_in : ℕ
  pub budget_estimate_tokens_out : ℕ

abbrev pub priced : EstimateSettings → Option ℕ → Option ℕ → CostEstimate
priced settings (some cost_in) (some cost_out) = record {
  amount =
      settings.budget_estimate_tokens_in * cost_in + settings.budget_estimate_tokens_out * cost_out;
  is_estimated = true;
}
priced settings _ _ = record {
  amount = settings.unknown_pricing_reserve_amount;
  is_estimated = true;
}

unfoldable pub estimate_cost :
    EstimateSettings → PricingClassification → Option ℕ → Option ℕ → CostEstimate
estimate_cost settings free cost_in cost_out = record { amount = 0; is_estimated = false }
estimate_cost settings _ cost_in cost_out = priced settings cost_in cost_out

-- What a reservation counts for.
abbrev pub committed_or_reserved : Option ℕ → ℕ → ℕ
committed_or_reserved (some committed_amount) reserved_amount = committed_amount
committed_or_reserved none reserved_amount = reserved_amount

abbrev pub counted : ReservationStatus → Option ℕ → ℕ → ℕ
counted active committed_amount reserved_amount = reserved_amount
counted committed committed_amount reserved_amount =
    committed_or_reserved committed_amount reserved_amount
counted released committed_amount reserved_amount = 0

-- `_current_committed_and_active_total`; a RELEASED reservation is not selected.
abbrev pub current_total : ℕ → List Reservation → ℕ
current_total budget_id [] = 0
current_total budget_id (r ∷ rest) =
    let total = current_total budget_id rest in
    if r.budget_id == budget_id
    then counted r.status r.committed_amount r.reserved_amount + total
    else total

-- `(total / limit) * 100 >= pct`, where the percentage of a limit of 0 is 0.
abbrev pub at_least : ℕ → ℕ → ℕ → Bool
at_least total limit pct = if limit == 0 then leb pct 0 else leb (pct * limit) (total * 100)

-- `exceeded` is the BudgetExceededError.
pub data ReserveOutcome : Type 0 where
  unlimited exceeded : ReserveOutcome
  reserved : Reservation → ReserveOutcome

abbrev pub new_reservation : ℕ → ℕ → Option ℕ → Option ℕ → ℕ → Reservation
new_reservation id budget_id agent_run_id task_run_id amount = record {
  id = id;
  budget_id = budget_id;
  agent_run_id = agent_run_id;
  task_run_id = task_run_id;
  reserved_amount = amount;
  committed_amount = none;
  status = active;
}

-- What follows the read of the total: the test and the INSERT. `seen` is what the SELECT gave, which
-- another call may have made outdated, since nothing is locked in between.
unfoldable pub reserve_seeing :
    ℕ → ℕ → Budget → Option ℕ → Option ℕ → ℕ → List Reservation → List Reservation × ReserveOutcome
reserve_seeing seen id budget agent_run_id task_run_id amount rows =
    let r = new_reservation id budget.id agent_run_id task_run_id amount in
    if at_least (seen + amount) budget.limit_amount budget.threshold_hard_pct
    then (rows, exceeded)
    else (rows ++ r ∷ [], reserved r)

-- A call that no other one interrupts.
unfoldable pub reserve :
    ℕ
    → Option Budget
    → Option ℕ
    → Option ℕ
    → ℕ
    → List Reservation
    → List Reservation × ReserveOutcome
reserve id none agent_run_id task_run_id amount rows = (rows, unlimited)
reserve id (some budget) agent_run_id task_run_id amount rows =
    reserve_seeing (current_total budget.id rows) id budget agent_run_id task_run_id amount rows

pub data ThresholdState : Type 0 where
  ok warn critical hard : ThresholdState

abbrev pub state_at : Budget → ℕ → ThresholdState
state_at budget total =
    if at_least total budget.limit_amount budget.threshold_hard_pct
    then hard
    else if at_least total budget.limit_amount budget.threshold_critical_pct
    then critical
    else if at_least total budget.limit_amount budget.threshold_warn_pct
    then warn
    else ok

unfoldable pub threshold_state : Budget → List Reservation → ThresholdState
threshold_state budget rows = state_at budget (current_total budget.id rows)

abbrev pub commit_reservation : ℕ → Reservation → Reservation
commit_reservation actual_amount r = record r {
  status = committed;
  committed_amount = some actual_amount;
}

abbrev pub release_reservation : Reservation → Reservation
release_reservation r = record r { status = released }

unfoldable pub settle : Option ℕ → ℕ → List Reservation → List Reservation
settle none actual_amount rows = rows
settle (some id) actual_amount rows =
    update_where (λ r. r.id == id) (commit_reservation actual_amount) rows

unfoldable pub release : Option ℕ → List Reservation → List Reservation
release none rows = rows
release (some id) rows = update_where (λ r. r.id == id) release_reservation rows
