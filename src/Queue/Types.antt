-- ===== src/Queue/Types.antt =====
-- queue.go's options, jobs and errors.
use speakertrail.Common.{
  ℕ, ◌*◌, Bool, true, false, Option, List, [], ◌∷◌, Text, ◌==◌, if◌then◌else◌,
}

abbrev pub minute : ℕ
minute = 60000000

-- DefaultBackoff
abbrev pub default_backoff : List ℕ
default_backoff = minute ∷ (10 * minute) ∷ (60 * minute) ∷ []

-- Options. The clock `Now` is an argument of each method.
pub record Options : Type 0 where
  pub max_attempts : ℕ
  pub backoff : List ℕ
  pub lease : ℕ

abbrev pub is_nil {ℓ} : {A : Type ℓ} → List A → Bool
is_nil [] = true
is_nil (x ∷ xs) = false

-- New: zero values take the defaults.
unfoldable pub new : Options → Options
new o = record {
  max_attempts = if o.max_attempts == 0 then 5 else o.max_attempts;
  backoff = if is_nil o.backoff then default_backoff else o.backoff;
  lease = if o.lease == 0 then 10 * minute else o.lease;
}

-- A claimed job.
pub record Job : Type 0 where
  pub id : ℕ
  pub kind : Text
  pub key : Text
  pub payload : Text
  pub attempts : ℕ
  pub max_attempts : ℕ

-- What json.Marshal makes of the payload of a new job, which may be nil.
pub data Payload : Type 0 where
  no_payload : Payload
  marshalled : Text → Payload
  marshal_error : Text → Payload

pub record NewJob : Type 0 where
  pub kind : Text
  pub key : Text
  pub payload : Payload
  -- The zero time is `none`.
  pub run_after : Option ℕ
  pub max_attempts : ℕ

pub data Error : Type 0 where
  missing_fields : Error
  bad_payload : Text → Error
  store : Text → Error
  lost_lease : ℕ → Error

pub data Result {ℓ} (A : Type ℓ) : Type ℓ where
  ok : A → Result A
  err : Error → Result A
