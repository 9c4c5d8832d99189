-- ===== src/Budget/Samples.antt =====
-- Runs of the budget governor, and its theorems applied to them.
use multi_agent_ai_platform.Base.{◌≡◌, refl, none, some, List, [], ◌∷◌, ◌≤◌, arith}
use multi_agent_ai_platform.Budget.{
  Budget, Reservation, exceeded, reserved, new_reservation, reserve, reserve_seeing, hard,
  threshold_state, settle, release, warn, estimate_cost,
}
use multi_agent_ai_platform.Budget.Limits.{
  GovernorRun, start, then_step, reservation, settlement, IsBelowHard, IsBelowHardBut,
  overrun_within_slack, outdated_read_overshoots, severity, threshold_state_mono,
}

abbrev a_budget : Budget
a_budget = record {
  id = 1;
  limit_amount = 100;
  threshold_warn_pct = 80;
  threshold_critical_pct = 95;
  threshold_hard_pct = 100;
}

abbrev one_reservation : List Reservation
one_reservation = new_reservation 10 1 (some 5) none 60 ∷ []

abbrev two_reservations : List Reservation
two_reservations =
    new_reservation 10 1 (some 5) none 60 ∷ new_reservation 11 1 (some 6) none 25 ∷ []

program : Unit {0}
unfolding reserve reserve_seeing settle release threshold_state estimate_cost
program = tt

refuses : reserve 11 (some a_budget) (some 6) none 40 one_reservation ≡ (one_reservation, exceeded)
unfolding program
refuses = refl

warns : threshold_state a_budget two_reservations ≡ warn
unfolding program
warns = refl

-- Reservation 10 of 60 was made; 11, of 30, acts on a total of 0 that was read before; 10 then costs
-- 65, and the slack is 60 and 5.
abbrev after_late : List Reservation
after_late = (reserve_seeing 0 11 a_budget (some 6) none 30 one_reservation).0

abbrev a_governor_run : GovernorRun a_budget one_reservation 65 (settle (some 10) 65 after_late)
unfolding program
a_governor_run =
    then_step (then_step start (reservation 0 11 a_budget (some 6) none 30 (λ e. refl)))
      (settlement 10 65)

overrun_within_slack_example : IsBelowHardBut 65 a_budget (settle (some 10) 65 after_late)
overrun_within_slack_example = overrun_within_slack a_governor_run refl

-- Two calls read the total 60; 25 and 30 fit, and together they do not.
outdated_read_overshoots_example :
    ((reserve_seeing 60 12 a_budget
        (some 6)
        none
        30
        (reserve 11 (some a_budget) (some 6) none 25 one_reservation).0).1
      ≡ reserved (new_reservation 12 1 (some 6) none 30))
    × (threshold_state a_budget
          (reserve_seeing 60 12 a_budget
            (some 6)
            none
            30
            (reserve 11 (some a_budget) (some 6) none 25 one_reservation).0).0
        ≡ hard)
    × ((reserve 12
          (some a_budget)
          (some 6)
          none
          30
          (reserve 11 (some a_budget) (some 6) none 25 one_reservation).0).1
        ≡ exceeded)
outdated_read_overshoots_example =
    outdated_read_overshoots a_budget 11 12 (some 6) none 25 30 one_reservation refl refl refl

threshold_state_mono_example :
    (severity (threshold_state a_budget one_reservation)
      ≤ severity (threshold_state a_budget two_reservations))
    × (IsBelowHard a_budget two_reservations
        → severity (threshold_state a_budget two_reservations) ≤ 2)
threshold_state_mono_example =
    threshold_state_mono a_budget one_reservation two_reservations (omega arith)
