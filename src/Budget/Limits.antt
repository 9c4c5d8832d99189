-- ===== src/Budget/Limits.antt =====
-- What the governor guarantees of a budget's total.
use multi_agent_ai_platform.Base.{
  ℕ, ◌≡◌, refl, subst, inl, inr, true, false, Option, some, List, [], ◌∷◌, ◌++◌, ◌+◌, ◌-◌, ◌≤◌,
  ◌==◌, ◌&&◌, ◌⊎◌, if◌then◌else◌, arith, Bool-cases, ==_iff,
}
use multi_agent_ai_platform.Budget.{
  Budget, Reservation, counted, current_total, at_least, exceeded, reserved, new_reservation,
  reserve_seeing, reserve, ThresholdState, ok, warn, critical, hard, state_at, threshold_state,
  settle, release,
}

at_least_mono :
    (total more limit pct : ℕ)
    → total ≤ more
    → at_least total limit pct ≡ true
    → at_least more limit pct ≡ true
at_least_mono total more limit pct le h = ground arith

total_append :
    (budget_id : ℕ) (rows : List Reservation) (r : Reservation)
    → current_total budget_id (rows ++ r ∷ [])
      ≡ current_total budget_id rows
        + (if r.budget_id == budget_id
            then counted r.status r.committed_amount r.reserved_amount
            else 0)
total_append budget_id [] r = ground arith
total_append budget_id (x ∷ rows) r = ground (arith, total_append budget_id rows r)

-- How far a settlement at `actual_amount` raises what the reservation counts for.
abbrev pub excess : ℕ → ℕ → ℕ → List Reservation → ℕ
excess budget_id id actual_amount [] = 0
excess budget_id id actual_amount (r ∷ rows) =
    let rest = excess budget_id id actual_amount rows in
    if r.id == id && r.budget_id == budget_id
    then actual_amount - counted r.status r.committed_amount r.reserved_amount + rest
    else rest

settle-excess :
    (budget_id id actual_amount : ℕ) (rows : List Reservation)
    → current_total budget_id (settle (some id) actual_amount rows)
      ≤ current_total budget_id rows + excess budget_id id actual_amount rows
unfolding settle
settle-excess budget_id id actual_amount [] = ground arith
settle-excess budget_id id actual_amount (r ∷ rows) =
    ground (arith, settle-excess budget_id id actual_amount rows)

release_le :
    (budget_id id : ℕ) (rows : List Reservation)
    → current_total budget_id (release (some id) rows) ≤ current_total budget_id rows
unfolding release
release_le budget_id id [] = ground arith
release_le budget_id id (r ∷ rows) = ground (arith, release_le budget_id id rows)

-- How far the total of a reservation's budget has grown since it was read as `seen`.
abbrev pub grown : Budget → Budget → ℕ → List Reservation → ℕ
grown budget other seen rows =
    if other.id == budget.id then current_total budget.id rows - seen else 0

-- One write of the governor, with its slack for `budget`. A reservation acts on a total that was read
-- at any time before, and a settlement may be of any reservation at any amount.
pub data GovernorStep (budget : Budget) : List Reservation → ℕ → List Reservation → Type 0 where
  reservation :
      {rows : List Reservation} (seen id : ℕ) (other : Budget) (agent_run_id task_run_id : Option ℕ)
      (amount : ℕ)
      → (other.id ≡ budget.id → other ≡ budget)
      → GovernorStep budget rows
          (grown budget other seen rows)
          (reserve_seeing seen id other agent_run_id task_run_id amount rows).0
  settlement :
      {rows : List Reservation} (id actual_amount : ℕ)
      → GovernorStep budget rows
          (excess budget.id id actual_amount rows)
          (settle (some id) actual_amount rows)
  releasing :
      {rows : List Reservation} (id : ℕ) → GovernorStep budget rows 0 (release (some id) rows)

-- A sequence of writes, with the sum of their slacks.
pub data GovernorRun (budget : Budget) : List Reservation → ℕ → List Reservation → Type 0 where
  start : {rows : List Reservation} → GovernorRun budget rows 0 rows
  then_step :
      {before between after : List Reservation} {slack more : ℕ}
      → GovernorRun budget before slack between
      → GovernorStep budget between more after
      → GovernorRun budget before (slack + more) after

-- The budget's total is below its hard threshold.
abbrev pub IsBelowHard : Budget → List Reservation → Type 0
IsBelowHard budget rows =
    at_least (current_total budget.id rows) budget.limit_amount budget.threshold_hard_pct ≡ false

below_mono :
    (total less limit pct : ℕ)
    → less ≤ total
    → at_least total limit pct ≡ false
    → at_least less limit pct ≡ false
below_mono total less limit pct le h = elim (Bool-cases (at_least less limit pct)) [
  | inl reached ↦ absurd (ground (arith, at_least_mono less total limit pct le reached))
  | inr below ↦ below
]

-- The budget's total is below its hard threshold but for the slack.
abbrev pub IsBelowHardBut : ℕ → Budget → List Reservation → Type 0
IsBelowHardBut slack budget rows =
    at_least (current_total budget.id rows - slack) budget.limit_amount budget.threshold_hard_pct
    ≡ false

abbrev FitsWith : Budget → ℕ → ℕ → Type 0
FitsWith budget amount seen =
    at_least (seen + amount) budget.limit_amount budget.threshold_hard_pct ≡ false

refused_or_added :
    (seen id : ℕ) (other : Budget) (agent_run_id task_run_id : Option ℕ) (amount : ℕ)
    (rows : List Reservation)
    → (reserve_seeing seen id other agent_run_id task_run_id amount rows ≡ (rows, exceeded))
      ⊎ (FitsWith other amount seen
          × (reserve_seeing seen id other agent_run_id task_run_id amount rows ≡ (
            rows ++ new_reservation id other.id agent_run_id task_run_id amount ∷ [],
            reserved (new_reservation id other.id agent_run_id task_run_id amount),
          )))
unfolding reserve_seeing
refused_or_added seen id other agent_run_id task_run_id amount rows =
    elim (Bool-cases (at_least (seen + amount) other.limit_amount other.threshold_hard_pct)) [
      | inl full ↦ inl (rw full refl)
      | inr fits ↦ inr (fits, rw fits refl)
    ]

reservation_keeps :
    (budget other : Budget) (slack seen id : ℕ) (agent_run_id task_run_id : Option ℕ) (amount : ℕ)
    (rows : List Reservation)
    → (other.id ≡ budget.id → other ≡ budget)
    → IsBelowHardBut slack budget rows
    → IsBelowHardBut
        (slack + grown budget other seen rows)
        budget
        (reserve_seeing seen id other agent_run_id task_run_id amount rows).0
reservation_keeps budget other slack seen id agent_run_id task_run_id amount rows same h =
    let new = new_reservation id other.id agent_run_id task_run_id amount in
    elim (refused_or_added seen id other agent_run_id task_run_id amount rows) [
      | inl refused ↦ rw refused (
          below_mono (current_total budget.id rows - slack) _ budget.limit_amount
            budget.threshold_hard_pct (omega arith) h)
      | inr (fits, added) ↦ rw added (
          let total = total_append budget.id rows new in
          elim (Bool-cases (other.id == budget.id)) [
            | inl e ↦
                let fits' : FitsWith budget amount seen =
                  subst (λ (b : Budget). FitsWith b amount seen)
                    (same ((==_iff other.id budget.id).0 e)) fits in
                below_mono (seen + amount) _ budget.limit_amount budget.threshold_hard_pct
                  (ground (arith, total)) fits'
            | inr ne ↦
                below_mono (current_total budget.id rows - slack) _ budget.limit_amount
                  budget.threshold_hard_pct (ground (arith, total)) h
          ])
    ]

-- Through any reservations for any budgets, each of which acts on a total that was read at any time
-- before, any settlements and any releases, the budget's own row being the same throughout: its ACTIVE
-- and COMMITTED total that was below its hard threshold stays below it but for the slack, which is the
-- sum of what the total had grown between a reservation's read and its insert, and of what settlements
-- cost more than their reservations counted for. Without such growth and such costs the total stays
-- below the threshold.
pub overrun_within_slack :
    {budget : Budget} {before after : List Reservation} {slack : ℕ}
    → GovernorRun budget before slack after
    → IsBelowHard budget before
    → IsBelowHardBut slack budget after
overrun_within_slack {budget} {before} start h =
    below_mono (current_total budget.id before) _ budget.limit_amount budget.threshold_hard_pct
      (omega arith) h
overrun_within_slack {budget}
      (then_step {before} {between} {after} {slack} run
        (reservation seen id other agent task amount same))
      h =
    reservation_keeps budget other slack seen id agent task amount between same
      (overrun_within_slack run h)
overrun_within_slack {budget}
      (then_step {before} {between} {after} {slack} run (settlement id actual_amount)) h =
    below_mono (current_total budget.id between - slack) _ budget.limit_amount
      budget.threshold_hard_pct (omega (arith, settle-excess budget.id id actual_amount between))
      (overrun_within_slack run h)
overrun_within_slack {budget} (then_step {before} {between} {after} {slack} run (releasing id)) h =
    below_mono (current_total budget.id between - slack) _ budget.limit_amount
      budget.threshold_hard_pct (omega (arith, release_le budget.id id between))
      (overrun_within_slack run h)

-- Two reservations that read the same total, each of which fits and which together reach the hard
-- threshold, are both made, and the budget's total then reaches the threshold; the second one is
-- refused if it reads the total after the first one's insert.
pub outdated_read_overshoots :
    (budget : Budget) (first second : ℕ) (agent_run_id task_run_id : Option ℕ) (amount more : ℕ)
    (rows : List Reservation)
    → FitsWith budget amount (current_total budget.id rows)
    → FitsWith budget more (current_total budget.id rows)
    → at_least
        (current_total budget.id rows + amount + more)
        budget.limit_amount
        budget.threshold_hard_pct
      ≡ true
    → ((reserve_seeing
          (current_total budget.id rows)
          second
          budget
          agent_run_id
          task_run_id
          more
          (reserve first (some budget) agent_run_id task_run_id amount rows).0).1
        ≡ reserved (new_reservation second budget.id agent_run_id task_run_id more))
      × (threshold_state budget
            (reserve_seeing
              (current_total budget.id rows)
              second
              budget
              agent_run_id
              task_run_id
              more
              (reserve first (some budget) agent_run_id task_run_id amount rows).0).0
          ≡ hard)
      × ((reserve second
            (some budget)
            agent_run_id
            task_run_id
            more
            (reserve first (some budget) agent_run_id task_run_id amount rows).0).1
          ≡ exceeded)
unfolding reserve reserve_seeing threshold_state
outdated_read_overshoots budget first second agent_run_id task_run_id amount more rows fits fits_too
      full =
    let new = new_reservation first budget.id agent_run_id task_run_id amount in
    let newer = new_reservation second budget.id agent_run_id task_run_id more in
    let one = total_append budget.id rows new in
    let two = total_append budget.id (rows ++ new ∷ []) newer in
    (
      rw (fits, fits_too) refl,
      rw (fits, fits_too) (ground (arith, one, two)),
      rw fits (ground (arith, one)),
    )

abbrev pub severity : ThresholdState → ℕ
severity ok = 0
severity warn = 1
severity critical = 2
severity hard = 3

state_at_mono :
    (budget : Budget) (total more : ℕ)
    → total ≤ more
    → severity (state_at budget total) ≤ severity (state_at budget more)
state_at_mono budget total more le =
    let limit = budget.limit_amount in
    ground (
      arith,
      at_least_mono total more limit budget.threshold_hard_pct le,
      at_least_mono total more limit budget.threshold_critical_pct le,
      at_least_mono total more limit budget.threshold_warn_pct le,
    )

-- Of two sets of reservations the one with the larger total for the budget is never reported as less
-- severe, and a budget below its hard threshold is never reported as `hard`.
pub threshold_state_mono :
    (budget : Budget) (rows more : List Reservation)
    → current_total budget.id rows ≤ current_total budget.id more
    → (severity (threshold_state budget rows) ≤ severity (threshold_state budget more))
      × (IsBelowHard budget more → severity (threshold_state budget more) ≤ 2)
unfolding threshold_state
threshold_state_mono budget rows more le = (
  state_at_mono budget (current_total budget.id rows) (current_total budget.id more) le,
  λ below. ground arith,
)
