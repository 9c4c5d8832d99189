-- ===== src/Effects.antt =====
-- Methods that write to the database and may raise. What was committed before a raise stays, so the
-- database comes back beside the error too. The errors are those of app/errors.py that the modelled
-- code raises.
use multi_agent_ai_platform.Base.{◌≡◌, refl, ◌⊎◌, inl, inr}
use multi_agent_ai_platform.Schema.{Db}

pub data Error : Type 0 where
  not_found forbidden conflict invalid_state_transition fingerprint_mismatch value_error : Error
  workflow_execution retry_not_allowed : Error

pub data Result {ℓ} (A : Type ℓ) : Type ℓ where
  ok : A → Result A
  raised : Error → Result A

abbrev pub Act : Type 0 → Type 0
Act A = Db → Db × Result A

abbrev pub return : {A : Type 0} → A → Act A
return a db = (db, ok a)

abbrev pub raise : {A : Type 0} → Error → Act A
raise e db = (db, raised e)

-- A write that cannot raise.
abbrev pub write : (Db → Db) → Act (Unit {0})
write f db = (f db, ok tt)

abbrev pub and_then : {A B : Type 0} → Result A → (A → Act B) → Act B
and_then (ok a) f db = f a db
and_then (raised e) f db = (db, raised e)

infixl 5 ◌>>=◌ ◌>>◌
abbrev pub ◌>>=◌ : {A B : Type 0} → Act A → (A → Act B) → Act B
◌>>=◌ m f db = let (after, r) = m db in and_then r f after

abbrev pub ◌>>◌ : {A B : Type 0} → Act A → Act B → Act B
m >> k = m >>= λ _. k

pub Result-cases :
    {A : Type 0} (r : Result A) → ((a : A) × (r ≡ ok a)) ⊎ ((e : Error) × (r ≡ raised e))
Result-cases (ok a) = inl (a, refl)
Result-cases (raised e) = inr (e, refl)
