-- ===== src/Fetch/Fetcher.antt =====
-- internal/fetch/fetch.go: the checks that an address passes before it is requested, and a plain load
-- of a page. The text of the page is not modelled.
pub mod Obeys
use speakertrail.Common.{
  ℕ, zero, suc, ◌+◌, ◌-◌, ◌≤◌, ◌<◌, ◌≡◌, refl, ◌⊎◌, inl, inr, Bool, true, false, ◌&&◌, Option, none,
  some, List, [], ◌∷◌, ◌++◌, Text, bytes, leb, ltb, if◌then◌else◌, arith, Option-cases, Bool-cases,
  sym, ap, ◌∙◌, All,
}
use speakertrail.Urls.{Url, Parser}
use speakertrail.Fetch.Guard.{check_allowed, check_allowed_iff}
use speakertrail.Fetch.Robots.{Rules, allowed}
use speakertrail.Fetch.Client.{
  Env, State, Entry, Error, Result, ok, err, refused, disallowed, bad_status, reading, Response,
  do_get, wait,
}
use speakertrail.Fetch.Client.Requests.{IsClean, do_get-IsClean, wait-log}
use speakertrail.Fetch.Cache.{KeepsHost, may_fetch, may_fetch-IsClean}

pub data Mode : Type 0 where
  mode_http mode_browser : Mode

pub record Page : Type 0 where
  pub url : Text
  pub final_url : Text
  pub mode : Mode
  pub status : ℕ

robots_say : State × Result Bool → State × Option Error
robots_say (st, err e) = (st, some e)
robots_say (st, ok true) = (st, none)
robots_say (st, ok false) = (st, some disallowed)

-- Fetcher.allowed, with `none` for no error.
unfoldable pub checked : Env → Text → State → State × Option Error
unfolding robots_say
checked env raw st = elim (check_allowed env.parse raw) [
  | some r ↦ (st, some (refused r))
  | none ↦ robots_say (may_fetch env raw st)
]

-- What the two results of HTTP are for a response.
abbrev pub page_of : Text → Response → Page
page_of raw r = record { url = raw; final_url = r.final_url; mode = mode_http; status = r.status }

abbrev pub outcome : Text → Result Response → Option Page × Option Error
outcome raw (err e) = (none, some e)
outcome raw (ok r) = elim r.broken [
  | some e ↦ (some (page_of raw r), some (reading e))
  | none ↦ (some (page_of raw r), (if leb 400 r.status then some (bad_status r.status) else none))
]

loaded : Env → Text → State × Option Error → State × (Option Page × Option Error)
loaded env raw (st, some e) = (st, (none, some e))
loaded env raw (st, none) = let (st', r) = do_get env raw st in (st', outcome raw r)

waited_for : Env → Text → State × Option Error → State × (Option Page × Option Error)
unfolding loaded
waited_for env raw (st, some e) = (st, (none, some e))
waited_for env raw (st, none) = loaded env raw (wait env raw st)

-- HTTP
unfoldable pub http : Env → Text → State → State × (Option Page × Option Error)
unfolding waited_for
http env raw st = waited_for env raw (checked env raw st)

checked-IsClean :
    (env : Env) (raw : Text) (st : State)
    → KeepsHost env.parse
    → IsClean env st
    → IsClean env (checked env raw st).0
unfolding checked robots_say
checked-IsClean env raw st same c = elim (Option-cases (check_allowed env.parse raw)) [
  | inr (r, e) ↦ rw (e, checked) c
  | inl e ↦ rw (e, checked) (said (may_fetch env raw st) (may_fetch-IsClean env raw st same e c))
]
  where
    said : (w : State × Result Bool) → IsClean env w.0 → IsClean env (robots_say w).0
    said (st', err e) c = c
    said (st', ok true) c = c
    said (st', ok false) c = c

-- The checks let an address pass only if it is one that may be requested.
checked-none :
    (env : Env) (raw : Text) (st : State)
    → (checked env raw st).1 ≡ none
    → check_allowed env.parse raw ≡ none
unfolding checked
checked-none env raw st h = elim (Option-cases (check_allowed env.parse raw)) [
  | inl e ↦ e
  | inr (r, e) ↦ absurd (ground arith)
]

-- Whatever the servers answer, a page load requests no address that may not be requested: not for
-- the page, nor for the site's robots.txt, nor after a redirect of either. It starts from a log without
-- such requests, and the parser keeps the host of an address in that of its robots.txt.
pub http-IsClean :
    (env : Env) (raw : Text) (st : State)
    → KeepsHost env.parse
    → IsClean env st
    → IsClean env (http env raw st).0
unfolding http waited_for loaded
http-IsClean env raw st same c =
    go (checked env raw st) (checked-IsClean env raw st same c) (checked-none env raw st)
  where
    last :
        (w : State × Option Error)
        → check_allowed env.parse raw ≡ none
        → IsClean env w.0
        → IsClean env (loaded env raw w).0
    last (st', some e) h c = c
    last (st', none) h c = do_get-IsClean env raw st' (λ _ _. h) c

    go :
        (w : State × Option Error)
        → IsClean env w.0
        → (w.1 ≡ none → check_allowed env.parse raw ≡ none)
        → IsClean env (waited_for env raw w).0
    go (st', some e) c h = c
    go (st', none) c h = last (wait env raw st') (h refl) (rw (wait-log env raw st').0 c)
