-- ===== src/Approval/Rollback.antt =====
-- A resolution that raises leaves the database as it found it.
use multi_agent_ai_platform.Base.{
  ℕ, ◌≡◌, refl, sym, ap, ◌∙◌, ◌⊎◌, inl, inr, Bool, true, false, Option, none, some, List, [], ◌∷◌,
  ◌==◌, if◌then◌else◌, find_where, update_where, count_where, arith, Bool-cases,
}
use multi_agent_ai_platform.Schema.{ApprovalStatus, Approval, decided, Db, is_approval}
use multi_agent_ai_platform.Effects.{Result, ok, raised, Error, and_then, Result-cases}
use multi_agent_ai_platform.Access.{check_project_access, modify}
use multi_agent_ai_platform.Workflow.Upstream.{Outside}
use multi_agent_ai_platform.Approval.Expire.{owning_project_id, get_approval, project_of}
use multi_agent_ai_platform.Approval.Resolve.{
  Engine, checked, decide, resolve, decision_of, undecided, record_decision, commit_or_rollback,
  apply_scope_effect, compare_and_swap_decision, swap_and_read, after_swap, after_busy, finish,
  finish_replay, row,
}
use multi_agent_ai_platform.Approval.Once.{effect_keeps, audit_approvals, audited}

module _ (outside : Outside) (engine : Engine) where
  -- A decision of the transaction: nothing happened, or the row of `a` is there and holds the decision.
  abbrev Swapped : Approval → Db → Db × Result Bool → Type 0
  Swapped a db p =
      ((p.0 ≡ db) × (p.1 ≡ ok true → ⊥))
      ⊎ ((p.1 ≡ ok true) × (b : Approval) × (row outside engine a.id p.0 ≡ some b))

  found_after :
      (id : ℕ) (p : Approval → Bool) (f : Approval → Approval)
      → ((a : Approval) → (f a).id ≡ a.id)
      → (rows : List Approval) → ((a : Approval) → p a ≡ true → a.id ≡ id)
      → count_where p rows ≡ 1
      → (b : Approval) × (find_where (λ a. a.id == id) (update_where p f rows) ≡ some b)
  found_after id p f kept [] own one = absurd (omega arith)
  found_after id p f kept (a ∷ rows) own one = elim (Bool-cases (p a)) [
    | inl hit ↦ (f a, ground (arith, own a hit, kept a))
    | inr miss ↦ elim (Bool-cases (a.id == id)) [
      | inl same ↦ (a, ground arith)
      | inr other ↦
          let (b, found) = found_after id p f kept rows own (ground arith) in (b, ground arith)
    ]
  ]

  commit_cases :
      (before : Db) (p : Db × Result (Unit {0})) (rows : List Approval)
      → p.0.approvals ≡ rows
      → ((commit_or_rollback before p).0 ≡ before) × ((commit_or_rollback before p).1 ≡ ok true → ⊥)
        ⊎ ((commit_or_rollback before p).1 ≡ ok true)
          × ((commit_or_rollback before p).0.approvals ≡ rows)
  commit_cases before (after, ok _) rows e = inr (refl, e)
  commit_cases before (after, raised x) rows e = inl (refl, λ h. ground arith)

  swap_cases :
      (now : ℕ) (a : Approval) (decision : ApprovalStatus) (user project_id : ℕ)
      (comment : Option ℕ) (db : Db)
      → Swapped a db
          (compare_and_swap_decision outside engine now a decision user project_id comment db)
  unfolding compare_and_swap_decision
  swap_cases now a decision user project_id comment db =
      elim (Bool-cases (count_where (undecided a.id) db.approvals == 1)) [
        | inr lost ↦ inl (rw lost refl, rw lost (λ h. ground arith))
        | inl won ↦
            rw won
              (elim (commit_cases db
                (apply_scope_effect outside engine a decision
                  (audited a now decision user project_id comment db))
                (update_where (undecided a.id) (record_decision now decision user comment)
                  db.approvals)
                (effect_keeps outside engine a decision
                    (audited a now decision user project_id comment db)
                  ∙ audit_approvals (decided decision) (some user) a.id (project_of project_id db)
                      _)) [
                        | inl back ↦ inl back
                        | inr (done, rows) ↦
                            let (b, found) =
                              found_after a.id (undecided a.id)
                                (record_decision now decision user comment) (λ x. refl) db.approvals
                                (λ x h. ground arith) (ground arith) in
                            inr (done, b, rw rows found)
                      ])
      ]

  abbrev Untouched : {A : Type 0} → Db → Db × Result A → Type 0
  Untouched db p = (e : Error) → p.1 ≡ raised e → p.0 ≡ db

  replay-Untouched :
      (a : Approval) (decision : ApprovalStatus) (user : ℕ) (db : Db)
      → Untouched db (finish_replay outside engine a decision user db)
  unfolding finish
  replay-Untouched a decision user db e h = elim (Bool-cases (is_approval a.status decision)) [
    | inl same ↦ absurd (ground arith)
    | inr other ↦ ground arith
  ]

  busy_closed :
      (a : Approval) (decision : ApprovalStatus) (user : ℕ) (db : Db)
      → is_approval a.status ApprovalStatus.pending ≡ false
      → after_busy outside engine (some a) decision user db
        ≡ finish_replay outside engine a decision user db
  busy_closed a decision user db closed_row = rw closed_row refl

  busy-Untouched :
      (o : Option Approval) (decision : ApprovalStatus) (user : ℕ) (db : Db)
      → Untouched db (after_busy outside engine o decision user db)
  busy-Untouched none decision user db e h = refl
  busy-Untouched (some a) decision user db e h =
      elim (Bool-cases (is_approval a.status ApprovalStatus.pending)) [
        | inl open_row ↦ rw open_row refl
        | inr closed_row ↦ rw closed_row (
            replay-Untouched a decision user db e (
              ap (λ (p : Db × Result Approval). p.1)
                (sym (busy_closed a decision user db closed_row))
              ∙ h))
      ]

  finished :
      (b : Approval) (o : Option Approval) (user : ℕ) (db : Db) (decision : ApprovalStatus)
      (e : Error)
      → o ≡ some b
      → (after_swap outside engine o true decision user db).1 ≡ raised e
      → ⊥
  unfolding finish
  finished b none user db decision e found h = ground arith
  finished b (some a) user db decision e found h = ground arith

  read_again :
      (o : Option Approval) (decision : ApprovalStatus) (user : ℕ) (db : Db)
      → Untouched db (after_swap outside engine o false decision user db)
  read_again none decision user db e h = refl
  read_again (some a) decision user db e h = replay-Untouched a decision user db e h

  after_swap-Untouched :
      (a : Approval) (decision : ApprovalStatus) (user : ℕ) (db : Db) (p : Db × Result Bool)
      → Swapped a db p
      → Untouched db (
          and_then p.1
            (λ w d. after_swap outside engine (row outside engine a.id d) w decision user d)
            p.0)
  after_swap-Untouched a decision user db (after, raised x) (inl (same, _)) e h = same
  after_swap-Untouched a decision user db (after, raised x) (inr (done, _, _)) e h =
      absurd (ground arith)
  after_swap-Untouched a decision user db (after, ok true) (inl (_, lost)) e h = absurd (lost refl)
  after_swap-Untouched a decision user db (after, ok true) (inr (_, b, found)) e h =
      absurd (finished b (row outside engine a.id after) user after decision e found h)
  after_swap-Untouched a decision user db (after, ok false) (inr (done, _, _)) e h =
      absurd (ground arith)
  after_swap-Untouched a decision user db (after, ok false) (inl (same, _)) e h =
      read_again (row outside engine a.id after) decision user after e h ∙ same

  written :
      (now : ℕ) (busy : Bool) (a : Approval) (decision : ApprovalStatus) (user project_id : ℕ)
      (comment : Option ℕ) (db : Db)
      → Untouched db (
          if busy
          then after_busy outside engine (row outside engine a.id db) decision user db
          else swap_and_read outside engine now a decision user project_id comment db)
  written now true a decision user project_id comment db e h =
      busy-Untouched (row outside engine a.id db) decision user db e h
  written now false a decision user project_id comment db e h =
      after_swap-Untouched a decision user db
        (compare_and_swap_decision outside engine now a decision user project_id comment db)
        (swap_cases now a decision user project_id comment db) e h

  decide-Untouched :
      (now : ℕ) (busy : Bool) (a : Approval) (decision : ApprovalStatus) (user project_id : ℕ)
      (comment : Option ℕ) (db : Db)
      → Untouched db (decide outside engine now busy a decision user project_id comment db)
  unfolding decide
  decide-Untouched now busy a decision user project_id comment db e =
      elim (Bool-cases (is_approval a.status ApprovalStatus.pending)) [
        | inr closed_row ↦ rw closed_row (replay-Untouched a decision user db e)
        | inl open_row ↦
            rw open_row
              (written now busy a decision user project_id (outside.cleaned_note comment) db e)
      ]

  checked-Untouched :
      (now : ℕ) (busy : Bool) (a : Approval) (user : ℕ) (approve : Bool) (fingerprint : ℕ)
      (comment : Option ℕ) (r : Result ℕ) (db : Db)
      → Untouched db (checked outside engine now busy a user approve fingerprint comment r db)
  checked-Untouched now busy a user approve fingerprint comment (raised x) db e = λ h. refl
  checked-Untouched now busy a user approve fingerprint comment (ok project_id) db e =
      elim (Result-cases (check_project_access user project_id modify db)) [
        | inr (x, refused) ↦ rw (refused, checked) (λ h. refl)
        | inl (m, granted) ↦
            rw (granted, checked)
              (elim (Bool-cases (fingerprint == a.action_fingerprint)) [
                | inr other ↦ rw other (λ h. refl)
                | inl same ↦
                    rw same (
                      decide-Untouched now busy a (decision_of approve) user project_id comment db
                        e)
              ])
      ]

  -- A resolution that raises an error leaves the whole database as it was: the decision, its audit
  -- event and the engine's part of it are rolled back together.
  pub resolve_rolls_back :
      (now : ℕ) (busy : Bool) (approval_id user : ℕ) (approve : Bool) (fingerprint : ℕ)
      (comment : Option ℕ) (db : Db) (e : Error)
      → (resolve outside engine now busy approval_id user approve fingerprint comment db).1
        ≡ raised e
      → (resolve outside engine now busy approval_id user approve fingerprint comment db).0 ≡ db
  unfolding resolve
  resolve_rolls_back now busy approval_id user approve fingerprint comment db e =
      elim (Result-cases (get_approval approval_id db)) [
        | inr (x, missing) ↦ rw (missing, resolve) (λ h. refl)
        | inl (a, found) ↦
            rw (found, resolve)
              (checked-Untouched now busy a user approve fingerprint comment
                (owning_project_id a db) db e)
      ]
