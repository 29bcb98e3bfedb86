-- ===== src/Fetch/Fetcher/Obeys.antt =====
-- A page that was loaded is one that the site's rules let the bot load.
use speakertrail.Common.{
  ◌≡◌, refl, inl, inr, Bool, true, false, Option, none, some, Text, arith, Option-cases, ap, ◌∙◌,
}
use speakertrail.Urls.{Url}
use speakertrail.Fetch.Guard.{check_allowed}
use speakertrail.Fetch.Robots.{Rules, allowed}
use speakertrail.Fetch.Client.{Env, State, Error, Result, ok, err, rounds, do_get, wait}
use speakertrail.Fetch.Client.Requests.{do_get-at_most_ten, wait-log}
use speakertrail.Fetch.Cache.{kept, may_fetch, origin_of, path_of}
use speakertrail.Fetch.Cache.Kept.{Holds, may_fetch-true}
use speakertrail.Fetch.Fetcher.{checked, robots_say, loaded, waited_for, http}

-- The rules that are kept for the address's site allow its path.
abbrev pub IsPermitted : Env → Text → State → Type 0
IsPermitted env raw st =
    (u : Url) × (env.parse raw ≡ some u)
    × ((rules : Rules) × Holds (origin_of u) rules st × (allowed rules (path_of u) ≡ true))

checked-IsPermitted :
    (env : Env) (raw : Text) (st : State)
    → (checked env raw st).1 ≡ none
    → (check_allowed env.parse raw ≡ none) × IsPermitted env raw (checked env raw st).0
unfolding checked robots_say
checked-IsPermitted env raw st h = elim (Option-cases (check_allowed env.parse raw)) [
  | inr (r, e) ↦ absurd (ground arith)
  | inl e ↦ (e, rw (e, checked) (said (may_fetch env raw st) refl (rw (e, checked) at h)))
]
  where
    said :
        (w : State × Result Bool)
        → may_fetch env raw st ≡ w
        → (robots_say w).1 ≡ none
        → IsPermitted env raw (robots_say w).0
    said (s, err e) f h = absurd (ground arith)
    said (s, ok true) f h = may_fetch-true env raw st s f
    said (s, ok false) f h = absurd (ground arith)

-- If a page was loaded without an error, its address may be requested, and rules of its site are kept
-- that allow its path.
pub http_obeys :
    (env : Env) (raw : Text) (st : State)
    → (http env raw st).1.1 ≡ none
    → (check_allowed env.parse raw ≡ none) × IsPermitted env raw (http env raw st).0
unfolding http waited_for loaded
http_obeys env raw st h = go (checked env raw st) (checked-IsPermitted env raw st) h
  where
    moved : (s t : State) → t.cache ≡ s.cache → IsPermitted env raw s → IsPermitted env raw t
    moved s t same (u, e, (rules, (x, k, r), a)) =
        (u, e, (rules, (x, ap (kept (origin_of u)) same ∙ k, r), a))

    last :
        (s : State) (w : State × Option Error)
        → w.0.cache ≡ s.cache
        → IsPermitted env raw s
        → (loaded env raw w).1.1 ≡ none
        → IsPermitted env raw (loaded env raw w).0
    last s (st', some e) same p h = absurd (ground arith)
    last s (st', none) same p h =
        moved s (do_get env raw st').0
          ((do_get-at_most_ten env raw st' rounds (omega arith)).0 ∙ same) p

    go :
        (w : State × Option Error)
        → (w.1 ≡ none → (check_allowed env.parse raw ≡ none) × IsPermitted env raw w.0)
        → (waited_for env raw w).1.1 ≡ none
        → (check_allowed env.parse raw ≡ none) × IsPermitted env raw (waited_for env raw w).0
    go (st', some e) f h = absurd (ground arith)
    go (st', none) f h =
        let (a, p) = f refl in (a, last st' (wait env raw st') (wait-log env raw st').1 p h)
