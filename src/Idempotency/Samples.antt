-- ===== src/Idempotency/Samples.antt =====
-- Runs of the idempotency keys, and their theorems applied to them.
use multi_agent_ai_platform.Base.{◌≡◌, refl, none, some, [], ◌∷◌, inl, arith}
use multi_agent_ai_platform.Idempotency.{
  api_request, tool_call, started, already_completed, Keys, new_key, try_begin, mark_completed,
  mark_failed, complete, fail, begin, begin_existing, KeyRow,
}
use multi_agent_ai_platform.Idempotency.Guard.{
  Server, OtherSteps, begun, reclaimed, none_yet, and_step, in_progress_excludes,
  completed_is_replayed,
}

abbrev one_key : Keys
one_key = new_key 1 api_request 4 ∷ []

abbrev two_keys : Keys
two_keys = new_key 1 api_request 4 ∷ new_key 2 tool_call 5 ∷ []

abbrev done_keys : Keys
done_keys = mark_completed (some 9) (new_key 1 api_request 4) ∷ new_key 2 tool_call 5 ∷ []

abbrev failed_keys : Keys
failed_keys = mark_failed (new_key 1 api_request 4) ∷ []

program : Unit {0}
unfolding try_begin begin complete fail
program = tt

begins : begin 2 tool_call 5 one_key ≡ (two_keys, some (started, new_key 2 tool_call 5))
unfolding program
begins = refl

completes : complete 1 (some 9) two_keys ≡ some done_keys
unfolding program
completes = refl

-- A begin of key 3 that read it as FAILED has not written yet.
abbrev late_row : KeyRow
late_row = mark_failed (new_key 3 tool_call 6)

abbrev server : Keys → Server
server rows = record { rows = rows; late = late_row ∷ [] }

-- Another key is begun, and the late begin writes.
abbrev one_key_later : Server
one_key_later = server (begin 2 tool_call 5 (late_row ∷ one_key)).0

abbrev other_steps : OtherSteps 1 (server (late_row ∷ one_key)) one_key_later
other_steps = and_step none_yet (begun 2 tool_call 5)

in_progress_excludes_example : begin 1 api_request 4 one_key_later.rows ≡ (one_key_later.rows, none)
in_progress_excludes_example =
    in_progress_excludes 1 api_request 4 (new_key 1 api_request 4) other_steps (ground arith) refl
      refl

abbrev after_reclaim : Server
after_reclaim = server (begin_existing late_row.status late_row (late_row ∷ done_keys)).0

abbrev steps_after : OtherSteps 1 (server (late_row ∷ done_keys)) after_reclaim
steps_after = and_step none_yet (reclaimed late_row (inl refl))

completed_is_replayed_example : begin 1 api_request 4 after_reclaim.rows ≡ (
  after_reclaim.rows,
  some (already_completed, mark_completed (some 9) (new_key 1 api_request 4)),
)
completed_is_replayed_example =
    completed_is_replayed 1 api_request 4 (mark_completed (some 9) (new_key 1 api_request 4))
      steps_after (ground arith) refl refl
