-- ===== src/Fetch/Cache.antt =====
-- internal/fetch/robots.go: the rules of each site, loaded once and kept for a day, and whether an
-- address may be fetched.
pub mod Kept
use speakertrail.Common.{
  ℕ, zero, suc, ◌+◌, ◌*◌, ◌-◌, ◌≤◌, ◌<◌, ◌≡◌, refl, ◌⊎◌, inl, inr, Bool, true, false, ◌&&◌, Option,
  none, some, List, [], ◌∷◌, ◌++◌, Text, bytes, text_eq, text_eq_refl, is_empty, leb, ltb,
  if◌then◌else◌, arith, Option-cases, Bool-cases, sym, ap, ◌∙◌,
}
use speakertrail.Urls.{Url, Parser}
use speakertrail.Fetch.Guard.{check_allowed, check_allowed_iff}
use speakertrail.Fetch.Robots.{Rules, allowed, parse_robots}
use speakertrail.Fetch.Client.{
  Env, State, Entry, Error, Result, ok, err, bad_address, robots, limited_get,
}
use speakertrail.Fetch.Client.Requests.{IsClean, limited_get-IsClean}

-- Robots.ttl, 24 hours, in microseconds
abbrev pub ttl : ℕ
ttl = 24 * 3600 * 1000000

-- r.cache[origin]
unfoldable pub kept : Text → List (Text × Entry) → Option Entry
kept origin [] = none
kept origin ((o, e) ∷ rest) = if text_eq o origin then some e else kept origin rest

unfoldable pub keep : Text → Entry → List (Text × Entry) → List (Text × Entry)
keep origin e [] = (origin, e) ∷ []
keep origin e ((o, f) ∷ rest) =
    if text_eq o origin then (o, e) ∷ rest else (o, f) ∷ keep origin e rest

-- The switch over the status.
unfoldable pub rules_of : Text → ℕ → Text → Rules
rules_of agent status body =
    if leb 200 status && ltb status 300
    then parse_robots body agent
    else if leb 400 status && ltb status 500
    then record { disallow_all = false; rules = [] }
    else record { disallow_all = true; rules = [] }

store : Env → Text → State × Result (ℕ × Text) → State × Result Rules
store env origin (st, err e) = (st, err (robots e))
store env origin (st, ok (status, body)) =
    let rules = rules_of env.agent status body in
    (
      record st {
        turn = st.turn + 1;
        cache = keep origin (record { rules = rules; fetched = env.now st.turn }) st.cache;
      },
      ok rules,
    )

load : Env → Text → State → State × Result Rules
load env origin st = store env origin (limited_get env (origin ++ bytes "/robots.txt") st)

abbrev pub read_clock : State → State
read_clock st = record st { turn = st.turn + 1 }

unless_fresh : Env → Text → State → Option Entry → State × Result Rules
unfolding load store
unless_fresh env origin st none = load env origin st
unless_fresh env origin st (some e) =
    let loaded = load env origin (read_clock st) in
    if ltb (env.now st.turn - e.fetched) ttl then (read_clock st, ok e.rules) else loaded

-- rulesFor
unfoldable pub rules_for : Env → Text → State → State × Result Rules
unfolding unless_fresh
rules_for env origin st = unless_fresh env origin st (kept origin st.cache)

abbrev pub origin_of : Url → Text
origin_of u = u.scheme ++ (bytes "://" ++ u.host)

abbrev pub path_of : Url → Text
path_of u =
    let path = if is_empty u.escaped_path then bytes "/" else u.escaped_path in
    if is_empty u.raw_query then path else path ++ (bytes "?" ++ u.raw_query)

judge : Text → State × Result Rules → State × Result Bool
judge path (st, err e) = (st, err e)
judge path (st, ok rules) = (st, ok (allowed rules path))

allowed_at : Env → State → Option Url → State × Result Bool
unfolding rules_for
allowed_at env st none = (st, err bad_address)
allowed_at env st (some u) = judge (path_of u) (rules_for env (origin_of u) st)

-- Allowed
unfoldable pub may_fetch : Env → Text → State → State × Result Bool
unfolding allowed_at judge
may_fetch env raw st = allowed_at env st (env.parse raw)

-- What url.Parse does with the address of a robots.txt, if it parses: it has the scheme and the host
-- of the address that it was made from.
abbrev pub KeepsHost : Parser → Type 0
KeepsHost parse =
    (raw : Text) (u v : Url)
    → parse raw ≡ some u
    → parse (origin_of u ++ bytes "/robots.txt") ≡ some v
    → (v.scheme ≡ u.scheme) × (v.hostname ≡ u.hostname)

check_allowed-robots :
    (parse : Parser) (raw : Text) (u v : Url)
    → KeepsHost parse
    → check_allowed parse raw ≡ none
    → parse raw ≡ some u
    → parse (origin_of u ++ bytes "/robots.txt") ≡ some v
    → check_allowed parse (origin_of u ++ bytes "/robots.txt") ≡ none
check_allowed-robots parse raw u v same h e f =
    let (u', e', http, free) = (check_allowed_iff parse raw).0 h in
    let (scheme, host) = same raw u v e f in
    let back : u ≡ u' = cc in
    (check_allowed_iff parse _).1 (v, f, rw (scheme, back) http, rw (host, back) free)

load-IsClean :
    (env : Env) (origin : Text) (st : State)
    → ((v : Url)
        → env.parse (origin ++ bytes "/robots.txt") ≡ some v
        → check_allowed env.parse (origin ++ bytes "/robots.txt") ≡ none)
    → IsClean env st
    → IsClean env (load env origin st).0
unfolding load store
load-IsClean env origin st h c =
    go (limited_get env (origin ++ bytes "/robots.txt") st)
      (limited_get-IsClean env (origin ++ bytes "/robots.txt") st h c)
  where
    go : (w : State × Result (ℕ × Text)) → IsClean env w.0 → IsClean env (store env origin w).0
    go (st', err e) c = c
    go (st', ok (status, body)) c = c

rules_for-IsClean :
    (env : Env) (origin : Text) (st : State)
    → ((v : Url)
        → env.parse (origin ++ bytes "/robots.txt") ≡ some v
        → check_allowed env.parse (origin ++ bytes "/robots.txt") ≡ none)
    → IsClean env st
    → IsClean env (rules_for env origin st).0
unfolding rules_for unless_fresh
rules_for-IsClean env origin st h c = go (kept origin st.cache)
  where
    go : (k : Option Entry) → IsClean env (unless_fresh env origin st k).0
    go none = load-IsClean env origin st h c
    go (some e) = elim (Bool-cases (ltb (env.now st.turn - e.fetched) ttl)) [
      | inl b ↦ rw b c
      | inr b ↦ rw b (load-IsClean env origin (read_clock st) h c)
    ]

pub may_fetch-IsClean :
    (env : Env) (raw : Text) (st : State)
    → KeepsHost env.parse
    → check_allowed env.parse raw ≡ none
    → IsClean env st
    → IsClean env (may_fetch env raw st).0
unfolding may_fetch allowed_at judge
may_fetch-IsClean env raw st same h c = go (env.parse raw) refl
  where
    judged :
        (path : Text) (w : State × Result Rules) → IsClean env w.0 → IsClean env (judge path w).0
    judged path (st', err e) c = c
    judged path (st', ok r) c = c

    go : (p : Option Url) → env.parse raw ≡ p → IsClean env (allowed_at env st p).0
    go none e = c
    go (some u) e = judged (path_of u) (rules_for env (origin_of u) st) (
        rules_for-IsClean env (origin_of u) st
          (λ v f. check_allowed-robots env.parse raw u v same h e f) c)
