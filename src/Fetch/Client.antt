-- ===== src/Fetch/Client.antt =====
-- internal/fetch/fetch.go and the end of robots.go: a GET request as net/http's client makes it, with
-- its redirects and the fetcher's check of them, and the wait for the site limit before it.
pub mod Requests
use speakertrail.Common.{
  ℕ, zero, suc, ◌+◌, ◌≤◌, ◌≡◌, refl, ◌⊎◌, inl, inr, Bool, true, false, leb, if◌then◌else◌, Option,
  none, some, List, [], ◌∷◌, ◌++◌, Text, bytes, take, All, All-append, length, length-append, ◌∙◌,
  sym, arith, Option-cases,
}
use mathlib.Core.Path.{subst}
use speakertrail.Urls.{Url, Parser}
use speakertrail.Fetch.Guard.{Refusal, check_allowed}
use speakertrail.Fetch.Robots.{Rules, max_body}

pub data Error : Type 0 where
  -- url.Parse and http.NewRequest
  bad_address too_many_redirects no_browser disallowed : Error
  -- The model's own: a chain of redirects took more rounds than it may.
  out_of_rounds : Error
  refused : Refusal → Error
  -- The limiter, the connection, the body.
  waiting network reading : Text → Error
  bad_status : ℕ → Error
  -- robots.txt could not be loaded.
  robots : Error → Error

pub data Result {ℓ} (A : Type ℓ) : Type ℓ where
  ok : A → Result A
  err : Error → Result A

-- What a server does with one request. A redirect has the address that the Location header resolves to.
pub data Reply : Type 0 where
  redirect : Text → Reply
  -- The status and the body, with the error that ends its reading, if one does.
  answer : ℕ → Text → Option Text → Reply
  fault : Text → Reply

-- The world: each thing done to it takes a turn, and what it does may depend on the turn.
pub record Env : Type 0 where
  pub parse : Parser
  -- Options.Limiter; `none` is nil.
  pub limiter : Option (ℕ → Text → Option Text)
  pub reply : ℕ → Text → Reply
  pub now : ℕ → ℕ
  -- BotName in lower case
  pub agent : Text

-- robotsEntry
pub record Entry : Type 0 where
  pub rules : Rules
  pub fetched : ℕ

pub record State : Type 0 where
  pub turn : ℕ
  -- The addresses requested, oldest first.
  pub log : List Text
  -- Robots.cache
  pub cache : List (Text × Entry)

abbrev pub requested : Text → State → State
requested raw st = record st { turn = st.turn + 1; log = st.log ++ raw ∷ [] }

pub record Response : Type 0 where
  pub final_url : Text
  pub status : ℕ
  pub body : Text
  pub broken : Option Text

-- checkRedirect; `via` is len(via), the number of requests made before.
unfoldable pub check_redirect : Parser → ℕ → Text → Option Error
check_redirect parse via raw =
    if leb 10 via
    then some too_many_redirects
    else elim (check_allowed parse raw) [ none ↦ none | some r ↦ some (refused r) ]

-- A response that is no redirect.
abbrev pub received : Text → Reply → Result Response
received raw (redirect to) = err too_many_redirects
received raw (fault e) = err (network e)
received raw (answer status body broken) =
    ok (record { final_url = raw; status = status; body = body; broken = broken })

-- Client.Do from one address on, with the rounds that it may take and the number of requests made
-- before. Only checkRedirect ends a chain of redirects.
unfoldable pub follow : Env → ℕ → ℕ → Text → State → State × Result Response
unfolding check_redirect
follow env zero via raw st = (st, err out_of_rounds)
follow env (suc fuel) via raw st = elim (env.reply st.turn raw) [
  | fault e ↦ (requested raw st, received raw (fault e))
  | answer status body broken ↦ (requested raw st, received raw (answer status body broken))
  | redirect to ↦ elim (check_redirect env.parse (suc via) to) [
    | some e ↦ (requested raw st, err e)
    | none ↦ follow env fuel (suc via) to (requested raw st)
  ]
]

-- With the rounds that it may take.
unfoldable pub send : Env → ℕ → Text → State → Option Url → State × Result Response
unfolding follow
send env fuel raw st none = (st, err bad_address)
send env fuel raw st (some u) = follow env fuel 0 raw st

-- More rounds than a chain of redirects ever takes.
abbrev pub rounds : ℕ
rounds = 20

-- http.NewRequest and Client.Do: no request is made for an address that does not parse.
unfoldable pub do_get : Env → Text → State → State × Result Response
unfolding send
do_get env raw st = send env rounds raw st (env.parse raw)

abbrev pub waited : State → State
waited st = record st { turn = st.turn + 1 }

-- Fetcher.wait, with `none` for no error.
unfoldable pub wait : Env → Text → State → State × Option Error
wait env raw st = elim env.limiter [
  | none ↦ (st, none)
  | some limit ↦ elim (limit st.turn raw) [
    | none ↦ (waited st, none)
    | some e ↦ (waited st, some (waiting e))
  ]
]

abbrev file_of : Result Response → Result (ℕ × Text)
file_of (err e) = err e
file_of (ok r) = elim r.broken [
  | none ↦ ok (r.status, take max_body r.body)
  | some e ↦ err (reading e)
]

get_file : Env → Text → State × Option Error → State × Result (ℕ × Text)
unfolding do_get
get_file env raw (st, some e) = (st, err e)
get_file env raw (st, none) = let (st', r) = do_get env raw st in (st', file_of r)

-- limitedGet, with httpGetter
unfoldable pub limited_get : Env → Text → State → State × Result (ℕ × Text)
unfolding get_file wait
limited_get env raw st = get_file env raw (wait env raw st)
