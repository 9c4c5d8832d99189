-- ===== src/Idempotency/Guard.antt =====
-- A key guards its operation: while it is in progress nobody else starts, and once it is completed
-- everybody gets its result.
use multi_agent_ai_platform.Base.{
  ℕ, ◌≡◌, refl, sym, ◌∙◌, ap, All, Among, All-Among, List, Option, none, some, [], ◌∷◌, ◌++◌, ◌==◌,
  update_where, arith, subst,
}
use multi_agent_ai_platform.Idempotency.{
  KeyStatus, in_progress, completed, failed, KeyScope, KeyRow, BeginOutcome, started,
  already_completed, in_progress_elsewhere, Keys, new_key, row_of, reclaim, begin_existing,
  begin_with, try_begin, finish_key, mark_completed, mark_failed, complete, fail, accepted, begin,
}

row-append :
    (key : ℕ) (rows : Keys) (r new : KeyRow)
    → row_of key rows ≡ some r
    → row_of key (rows ++ new ∷ []) ≡ some r
row-append key [] r new h = cc
row-append key (x ∷ rows) r new h = ground (arith, row-append key rows r new)

-- An UPDATE of another key.
row-update_other :
    (key other : ℕ) (values : KeyRow → KeyRow) (rows : Keys)
    → ((r : KeyRow) → (values r).key ≡ r.key)
    → (other ≡ key → ⊥)
    → row_of key (update_where (λ r. r.key == other) values rows) ≡ row_of key rows
row-update_other key other values [] kept ne = refl
row-update_other key other values (x ∷ rows) kept ne =
    ground (arith, kept x, row-update_other key other values rows kept ne)

row-key : (key : ℕ) (rows : Keys) (r : KeyRow) → row_of key rows ≡ some r → r.key ≡ key
row-key key [] r h = cc
row-key key (x ∷ rows) r h = ground (arith, row-key key rows r)

begin_existing_keeps :
    (key other : ℕ) (r existing : KeyRow) (status : KeyStatus) (rows : Keys)
    → row_of key rows ≡ some r
    → (other ≡ key → status ≡ failed → ⊥)
    → existing.key ≡ other
    → row_of key (begin_existing status existing rows).0 ≡ some r
begin_existing_keeps key other r existing completed rows h held same = h
begin_existing_keeps key other r existing in_progress rows h held same = h
begin_existing_keeps key other r existing failed rows h held same =
    row-update_other key existing.key reclaim rows (λ x. refl) (λ e. held (sym same ∙ e) refl) ∙ h

-- A row that no begin touches: it is in progress or completed.
abbrev pub IsHeld : ℕ → KeyRow → Keys → Type 0
IsHeld key r rows = (row_of key rows ≡ some r) × (r.status ≡ failed → ⊥)

abbrev status_of : Option KeyRow → KeyStatus
status_of none = failed
status_of (some r) = r.status

begin_with_keeps :
    (key other : ℕ) (r new : KeyRow) (o : Option KeyRow) (rows : Keys)
    → IsHeld key r rows
    → row_of other rows ≡ o
    → row_of key (begin_with o new rows).0 ≡ some r
begin_with_keeps key other r new none rows h e = row-append key rows r new h.0
begin_with_keeps key other r new (some existing) rows h e =
    begin_existing_keeps key other r existing existing.status rows h.0
      (λ same is_failed.
        h.1
          (ap status_of (sym h.0 ∙ subst (λ k. row_of k rows ≡ some existing) same e) ∙ is_failed))
      (row-key other rows existing e)

try_begin-IsHeld :
    (key other : ℕ) (scope : KeyScope) (resource_type : ℕ) (r : KeyRow) (rows : Keys)
    → IsHeld key r rows
    → IsHeld key r (try_begin other scope resource_type rows).0
unfolding try_begin
try_begin-IsHeld key other scope resource_type r rows h = (
  begin_with_keeps key other r (new_key other scope resource_type) (row_of other rows) rows h refl,
  h.1,
)

finish-IsHeld :
    (key other : ℕ) (values : KeyRow → KeyRow) (r : KeyRow) (o : Option KeyRow) (rows after : Keys)
    → ((r : KeyRow) → (values r).key ≡ r.key)
    → (other ≡ key → ⊥)
    → finish_key values other o rows ≡ some after
    → IsHeld key r rows
    → IsHeld key r after
finish-IsHeld key other values r none rows after kept ne e h = absurd (ground arith)
finish-IsHeld key other values r (some row) rows after kept ne e h = (
  subst (λ t. row_of key t ≡ some r) (ground arith)
      (row-update_other key other values rows kept ne ∙ h.0),
  h.1,
)

-- The table, and the rows that some begin has read as FAILED and may still reclaim.
pub record Server : Type 0 where
  pub rows : Keys
  pub late : List KeyRow

-- A step of anyone but the holder of `key`: a begin of any key, whole or up to its SELECT; the late
-- write of such a begin; the end of another key's operation.
pub data OtherStep (key : ℕ) (server : Server) : Server → Type 0 where
  begun :
      (other : ℕ) (scope : KeyScope) (resource_type : ℕ)
      → OtherStep key server
          (record server { rows = (begin other scope resource_type server.rows).0 })
  read_failed :
      (other : ℕ) (existing : KeyRow)
      → row_of other server.rows ≡ some existing
      → existing.status ≡ failed
      → OtherStep key server (record server { late = existing ∷ server.late })
  reclaimed :
      (existing : KeyRow)
      → Among existing server.late
      → OtherStep key server
          (record server { rows = (begin_existing existing.status existing server.rows).0 })
  completed_other :
      {after : Keys} (other : ℕ) (result_ref : Option ℕ)
      → (other ≡ key → ⊥)
      → complete other result_ref server.rows ≡ some after
      → OtherStep key server (record server { rows = after })
  failed_other :
      {after : Keys} (other : ℕ)
      → (other ≡ key → ⊥)
      → fail other server.rows ≡ some after
      → OtherStep key server (record server { rows = after })

pub data OtherSteps (key : ℕ) (server : Server) : Server → Type 0 where
  none_yet : OtherSteps key server server
  and_step :
      {between after : Server}
      → OtherSteps key server between
      → OtherStep key between after
      → OtherSteps key server after

-- No begin that read the key as FAILED is yet to write.
abbrev pub NoneLate : ℕ → Server → Type 0
NoneLate key server = All (λ existing. existing.key ≡ key → ⊥) server.late

begin_table :
    (other : ℕ) (scope : KeyScope) (resource_type : ℕ) (rows : Keys)
    → (begin other scope resource_type rows).0 ≡ (try_begin other scope resource_type rows).0
unfolding begin
begin_table other scope resource_type rows = refl

abbrev IsSafe : ℕ → KeyRow → Server → Type 0
IsSafe key r server = IsHeld key r server.rows × NoneLate key server

late_row :
    (key other : ℕ) (r existing : KeyRow) (rows : Keys)
    → IsHeld key r rows
    → row_of other rows ≡ some existing
    → existing.status ≡ failed
    → existing.key ≡ key
    → ⊥
late_row key other r existing rows h found is_failed same =
    let e : other ≡ key = sym (row-key other rows existing found) ∙ same in
    h.1 (ap status_of (sym h.0 ∙ subst (λ k. row_of k rows ≡ some existing) e found) ∙ is_failed)

steps-IsSafe :
    {key : ℕ} {before after : Server} (r : KeyRow)
    → OtherSteps key before after
    → IsSafe key r before
    → IsSafe key r after
unfolding complete fail
steps-IsSafe r none_yet h = h
steps-IsSafe {key} r (and_step {between} {after} steps (begun other scope resource_type)) h =
    let (held, none_late) = steps-IsSafe r steps h in
    (
      rw (begin_table other scope resource_type between.rows)
          (try_begin-IsHeld key other scope resource_type r between.rows held),
      none_late,
    )
steps-IsSafe {key} r (and_step {between} {after} steps (read_failed other existing found e)) h =
    let (held, none_late) = steps-IsSafe r steps h in
    (held, (λ same. late_row key other r existing between.rows held found e same, none_late))
steps-IsSafe {key} r (and_step {between} {after} steps (reclaimed existing listed)) h =
    let (held, none_late) = steps-IsSafe r steps h in
    let other =
      All-Among (λ (x : KeyRow). x.key ≡ key → ⊥) between.late existing none_late listed in
    (
      (
        begin_existing_keeps key existing.key r existing existing.status between.rows held.0
            (λ same _. other same) refl,
        held.1,
      ),
      none_late,
    )
steps-IsSafe {key} r (and_step {between} {after} steps (completed_other other result_ref ne e)) h =
    let (held, none_late) = steps-IsSafe r steps h in
    (
      finish-IsHeld key other (mark_completed result_ref) r (row_of other between.rows) between.rows
          _ (λ x. refl) ne e held,
      none_late,
    )
steps-IsSafe {key} r (and_step {between} {after} steps (failed_other other ne e)) h =
    let (held, none_late) = steps-IsSafe r steps h in
    (
      finish-IsHeld key other mark_failed r (row_of other between.rows) between.rows _ (λ x. refl)
          ne e held,
      none_late,
    )

begin_held :
    (key : ℕ) (scope : KeyScope) (resource_type : ℕ) (r : KeyRow) (rows : Keys)
    (outcome : BeginOutcome)
    → row_of key rows ≡ some r
    → begin_existing r.status r rows ≡ (rows, outcome, r)
    → begin key scope resource_type rows ≡ (rows, accepted outcome r)
unfolding begin try_begin
begin_held key scope resource_type r rows outcome found e =
    rw (found, begin, begin_with) (rw e refl)

-- While a key's row is IN_PROGRESS, and no begin that read it as FAILED is yet to write, then after
-- any begins, late writes of begins, and completions and failures of other keys, a begin of the key is
-- refused as a conflict and changes nothing.
pub in_progress_excludes :
    {before after : Server} (key : ℕ) (scope : KeyScope) (resource_type : ℕ) (r : KeyRow)
    → OtherSteps key before after
    → NoneLate key before
    → row_of key before.rows ≡ some r
    → r.status ≡ in_progress
    → begin key scope resource_type after.rows ≡ (after.rows, none)
in_progress_excludes {before} {after} key scope resource_type r steps none_late found e =
    let safe = steps-IsSafe r steps ((found, λ f. ground arith), none_late) in
    begin_held key scope resource_type r after.rows in_progress_elsewhere safe.0.0 (rw e refl)

-- Once a key's row is COMPLETED, and no begin that read it as FAILED is yet to write, then after any
-- begins, late writes of begins, and completions and failures of other keys, a begin of the key
-- returns that row with its result and changes nothing.
pub completed_is_replayed :
    {before after : Server} (key : ℕ) (scope : KeyScope) (resource_type : ℕ) (r : KeyRow)
    → OtherSteps key before after
    → NoneLate key before
    → row_of key before.rows ≡ some r
    → r.status ≡ completed
    → begin key scope resource_type after.rows ≡ (after.rows, some (already_completed, r))
completed_is_replayed {before} {after} key scope resource_type r steps none_late found e =
    let safe = steps-IsSafe r steps ((found, λ f. ground arith), none_late) in
    begin_held key scope resource_type r after.rows already_completed safe.0.0 (rw e refl)

row-update_own :
    (key : ℕ) (values : KeyRow → KeyRow) (rows : Keys) (r : KeyRow)
    → ((r : KeyRow) → (values r).key ≡ r.key)
    → row_of key rows ≡ some r
    → row_of key (update_where (λ r. r.key == key) values rows) ≡ some (values r)
row-update_own key values [] r kept h = cc
row-update_own key values (x ∷ rows) r kept h =
    ground (arith, kept x, row-update_own key values rows r kept)

reclaim_row :
    (key : ℕ) (existing row : KeyRow) (rows : Keys)
    → existing.key ≡ key
    → existing.status ≡ failed
    → row_of key rows ≡ some row
    → ((begin_existing existing.status existing rows).1 ≡ started)
      × (row_of key (begin_existing existing.status existing rows).0 ≡ some (reclaim row))
reclaim_row key existing row rows own is_failed found = rw is_failed (
  refl,
  subst (λ k. row_of key (update_where (λ x. x.key == k) reclaim rows) ≡ some (reclaim row))
      (sym own) (row-update_own key reclaim rows row (λ x. refl) found),
)

complete_row :
    (key : ℕ) (result_ref : Option ℕ) (row : KeyRow) (rows after : Keys)
    → row_of key rows ≡ some row
    → complete key result_ref rows ≡ some after
    → row_of key after ≡ some (mark_completed result_ref row)
unfolding complete
complete_row key result_ref row rows after found e =
    let table : update_where (λ x. x.key == key) (mark_completed result_ref) rows ≡ after =
      ground arith in
    subst (λ t. row_of key t ≡ some (mark_completed result_ref row)) table
      (row-update_own key (mark_completed result_ref) rows row (λ x. refl) found)

-- A late write is not refused: if two begins read a key's row as FAILED, and the first one reclaims
-- it and completes the operation, then the second one starts the operation again, and leaves the key
-- IN_PROGRESS without the result.
pub late_reclaim_restarts :
    (key : ℕ) (result_ref : Option ℕ) (rows after : Keys) (r : KeyRow)
    → row_of key rows ≡ some r
    → r.status ≡ failed
    → complete key result_ref (begin_existing r.status r rows).0 ≡ some after
    → (row_of key after ≡ some (mark_completed result_ref (reclaim r)))
      × ((begin_existing r.status r after).1 ≡ started)
      × (row_of key (begin_existing r.status r after).0 ≡ some (reclaim r))
late_reclaim_restarts key result_ref rows after r found is_failed e =
    let own = row-key key rows r found in
    let first = reclaim_row key r r rows own is_failed found in
    let finished = complete_row key result_ref (reclaim r) _ after first.1 e in
    let second = reclaim_row key r _ after own is_failed finished in (finished, second.0, second.1)
