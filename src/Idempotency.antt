-- ===== src/Idempotency.antt =====
-- Idempotency keys: app/repositories/idempotency_repository.py and
-- app/services/idempotency_service.py, with the row of app/models/execution.py. The column `key` is
-- unique, so the INSERT of a key that is there fails and is rolled back.
pub mod Guard
pub mod Samples
use multi_agent_ai_platform.Base.{
  ℕ, Bool, true, false, Option, none, some, List, [], ◌∷◌, ◌++◌, ◌==◌, if◌then◌else◌, find_where,
  update_where,
}

pub data KeyStatus : Type 0 where
  in_progress completed failed : KeyStatus

pub data KeyScope : Type 0 where
  api_request tool_call : KeyScope

pub record KeyRow : Type 0 where
  pub key : ℕ
  pub scope : KeyScope
  pub resource_type : ℕ
  pub result_ref : Option ℕ
  pub status : KeyStatus

pub data BeginOutcome : Type 0 where
  started already_completed in_progress_elsewhere : BeginOutcome

abbrev pub Keys : Type 0
Keys = List KeyRow

abbrev pub new_key : ℕ → KeyScope → ℕ → KeyRow
new_key key scope resource_type = record {
  key = key;
  scope = scope;
  resource_type = resource_type;
  result_ref = none;
  status = in_progress;
}

abbrev pub row_of : ℕ → Keys → Option KeyRow
row_of key rows = find_where (λ r. r.key == key) rows

abbrev pub reclaim : KeyRow → KeyRow
reclaim r = record r { status = in_progress; result_ref = none }

-- What follows the SELECT of the row that a failed INSERT met. The table may have changed since: the
-- UPDATE of a row that was read as FAILED has no condition but the key.
abbrev pub begin_existing : KeyStatus → KeyRow → Keys → Keys × BeginOutcome × KeyRow
begin_existing completed existing rows = (rows, already_completed, existing)
begin_existing in_progress existing rows = (rows, in_progress_elsewhere, existing)
begin_existing failed existing rows =
    (update_where (λ r. r.key == existing.key) reclaim rows, started, reclaim existing)

abbrev pub begin_with : Option KeyRow → KeyRow → Keys → Keys × BeginOutcome × KeyRow
begin_with none row rows = (rows ++ row ∷ [], started, row)
begin_with (some existing) row rows = begin_existing existing.status existing rows

-- A begin that no other call interrupts.
unfoldable pub try_begin : ℕ → KeyScope → ℕ → Keys → Keys × BeginOutcome × KeyRow
try_begin key scope resource_type rows =
    begin_with (row_of key rows) (new_key key scope resource_type) rows

-- `scalar_one` raises if the row is not there, before anything is written: `none`.
abbrev pub finish_key : (KeyRow → KeyRow) → ℕ → Option KeyRow → Keys → Option Keys
finish_key values key none rows = none
finish_key values key (some row) rows = some (update_where (λ r. r.key == key) values rows)

abbrev pub mark_completed : Option ℕ → KeyRow → KeyRow
mark_completed result_ref r = record r { status = completed; result_ref = result_ref }

abbrev pub mark_failed : KeyRow → KeyRow
mark_failed r = record r { status = failed }

unfoldable pub complete : ℕ → Option ℕ → Keys → Option Keys
complete key result_ref rows = finish_key (mark_completed result_ref) key (row_of key rows) rows

unfoldable pub fail : ℕ → Keys → Option Keys
fail key rows = finish_key mark_failed key (row_of key rows) rows

-- `begin` of the service: `none` for the IdempotencyConflictError.
abbrev pub accepted : BeginOutcome → KeyRow → Option (BeginOutcome × KeyRow)
accepted in_progress_elsewhere row = none
accepted outcome row = some (outcome, row)

unfoldable pub begin : ℕ → KeyScope → ℕ → Keys → Keys × Option (BeginOutcome × KeyRow)
begin key scope resource_type rows =
    let (after, outcome, row) = try_begin key scope resource_type rows in
    (after, accepted outcome row)
