-- ===== src/Fetch/Cache/Kept.antt =====
-- The rules of a site that are kept: those last given, and for how long they are given again.
use speakertrail.Common.{
  ℕ, ◌+◌, ◌-◌, ◌<◌, ◌≡◌, refl, inl, inr, true, Option, none, some, List, [], ◌∷◌, ◌++◌, Text, bytes,
  text_eq, text_eq_refl, ltb, arith, Bool-cases, sym, ap, ◌∙◌,
}
use speakertrail.Urls.{Url}
use speakertrail.Fetch.Robots.{Rules, allowed}
use speakertrail.Fetch.Client.{Env, State, Entry, Error, Result, ok, err, robots, limited_get}
use speakertrail.Fetch.Client.Requests.{limited_get-cache}
use speakertrail.Fetch.Cache.{
  ttl, kept, keep, rules_of, store, load, read_clock, unless_fresh, rules_for, judge, allowed_at,
  may_fetch, origin_of, path_of,
}

kept-keep :
    (origin : Text) (e : Entry) (cache : List (Text × Entry))
    → kept origin (keep origin e cache) ≡ some e
unfolding kept keep
kept-keep origin e [] = ground (arith, text_eq_refl origin)
kept-keep origin e ((o, f) ∷ rest) = elim (Bool-cases (text_eq o origin)) [
  | inl b ↦ rw (b, b) refl
  | inr b ↦ rw (b, b) (kept-keep origin e rest)
]

-- The rules that an address's site is held to.
abbrev pub Holds : Text → Rules → State → Type 0
Holds origin rules st = (e : Entry) × (kept origin st.cache ≡ some e) × (e.rules ≡ rules)

load-Holds :
    (env : Env) (origin : Text) (st st' : State) (rules : Rules)
    → load env origin st ≡ (st', ok rules)
    → Holds origin rules st'
unfolding load store
load-Holds env origin st st' rules h = go (limited_get env (origin ++ bytes "/robots.txt") st) h
  where
    go :
        (w : State × Result (ℕ × Text))
        → store env origin w ≡ (st', ok rules)
        → Holds origin rules st'
    go (s, err e) h = absurd (ground arith)
    go (s, ok (status, body)) h =
        let entry : Entry = record {
          rules = rules_of env.agent status body;
          fetched = env.now s.turn;
        } in
        (entry, sym (ap (λ p. kept origin p.0.cache) h) ∙ kept-keep origin entry s.cache, cc)

rules_for-Holds :
    (env : Env) (origin : Text) (st st' : State) (rules : Rules)
    → rules_for env origin st ≡ (st', ok rules)
    → Holds origin rules st'
unfolding rules_for unless_fresh
rules_for-Holds env origin st st' rules h = go (kept origin st.cache) refl h
  where
    go :
        (k : Option Entry)
        → kept origin st.cache ≡ k
        → unless_fresh env origin st k ≡ (st', ok rules)
        → Holds origin rules st'
    go none e h = load-Holds env origin st st' rules h
    go (some x) e h = elim (Bool-cases (ltb (env.now st.turn - x.fetched) ttl)) [
      | inl b ↦ (let g = rw b at h in (x, sym (ap (λ p. kept origin p.0.cache) g) ∙ e, cc))
      | inr b ↦ load-Holds env origin (read_clock st) st' rules (rw b at h)
    ]

-- Rules that were given for a site are kept with the time at which they were loaded. For a day from
-- then on they are given again, without a request, whatever happened to other sites' rules.
pub rules_for_repeat :
    (env : Env) (origin : Text) (st st' later : State) (rules : Rules) (e : Entry)
    → rules_for env origin st ≡ (st', ok rules)
    → kept origin st'.cache ≡ some e
    → kept origin later.cache ≡ kept origin st'.cache
    → env.now later.turn < e.fetched + ttl
    → rules_for env origin later ≡ (read_clock later, ok rules)
unfolding rules_for unless_fresh
rules_for_repeat env origin st st' later rules e h k same soon =
    let (x, k', r) = rules_for-Holds env origin st st' rules h in
    let fresh : ltb (env.now later.turn - e.fetched) ttl ≡ true = ground arith in
    let here : e.rules ≡ rules = cc in rw (same ∙ k, fresh, here, rules_for, unless_fresh) refl

-- Where no rules are given for a site, the error says that its robots.txt could not be loaded, and the
-- rules that are kept stay as they were.
pub rules_for_failed :
    (env : Env) (origin : Text) (st st' : State) (e : Error)
    → rules_for env origin st ≡ (st', err e)
    → ((cause : Error) × (e ≡ robots cause)) × (st'.cache ≡ st.cache)
unfolding rules_for unless_fresh load
rules_for_failed env origin st st' e h = go (kept origin st.cache) h
  where
    stored :
        (was : State) (w : State × Result (ℕ × Text))
        → w.0.cache ≡ was.cache
        → store env origin w ≡ (st', err e)
        → ((cause : Error) × (e ≡ robots cause)) × (st'.cache ≡ was.cache)
    stored was (s, err x) c h = ((x, cc), sym (ap (λ p. p.0.cache) h) ∙ c)
    stored was (s, ok (status, body)) c h = absurd (ground arith)

    go :
        (k : Option Entry)
        → unless_fresh env origin st k ≡ (st', err e)
        → ((cause : Error) × (e ≡ robots cause)) × (st'.cache ≡ st.cache)
    go none h =
        stored st (limited_get env (origin ++ bytes "/robots.txt") st) (limited_get-cache env _ st)
          h
    go (some x) h = elim (Bool-cases (ltb (env.now st.turn - x.fetched) ttl)) [
      | inl b ↦ absurd (ground arith)
      | inr b ↦
          stored (read_clock st) (limited_get env (origin ++ bytes "/robots.txt") (read_clock st))
            (limited_get-cache env _ (read_clock st)) (rw b at h)
    ]

pub may_fetch-true :
    (env : Env) (raw : Text) (st st' : State)
    → may_fetch env raw st ≡ (st', ok true)
    → (u : Url) × (env.parse raw ≡ some u)
      × ((rules : Rules) × Holds (origin_of u) rules st' × (allowed rules (path_of u) ≡ true))
unfolding may_fetch allowed_at judge
may_fetch-true env raw st st' h = go (env.parse raw) refl h
  where
    judged :
        (u : Url) (w : State × Result Rules)
        → rules_for env (origin_of u) st ≡ w
        → judge (path_of u) w ≡ (st', ok true)
        → (rules : Rules) × Holds (origin_of u) rules st' × (allowed rules (path_of u) ≡ true)
    judged u (s, err e) f h = absurd (ground arith)
    judged u (s, ok rules) f h =
        let g : rules_for env (origin_of u) st ≡ (st', ok rules) = cc in
        (rules, rules_for-Holds env (origin_of u) st st' rules g, cc)

    go :
        (p : Option Url)
        → env.parse raw ≡ p
        → allowed_at env st p ≡ (st', ok true)
        → (u : Url) × (env.parse raw ≡ some u)
          × ((rules : Rules) × Holds (origin_of u) rules st' × (allowed rules (path_of u) ≡ true))
    go none e h = absurd (ground arith)
    go (some u) e h = (u, e, judged u (rules_for env (origin_of u) st) refl h)
