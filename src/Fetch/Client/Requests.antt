-- ===== src/Fetch/Client/Requests.antt =====
-- What requests leave: only addresses that may be requested, at most ten of them, and the rules kept.
use speakertrail.Common.{
  ℕ, zero, suc, ◌+◌, ◌≤◌, ◌<◌, ◌≡◌, refl, ◌⊎◌, inl, inr, Option, none, some, [], ◌∷◌, ◌++◌, Text,
  All, All-append, length, length-append, ◌∙◌, sym, arith, Option-cases,
}
use mathlib.Core.Path.{subst}
use speakertrail.Urls.{Url, Parser}
use speakertrail.Fetch.Guard.{check_allowed}
use speakertrail.Fetch.Client.{
  Env, State, Error, Reply, redirect, answer, fault, requested, check_redirect, follow, send,
  rounds, do_get, wait, get_file, limited_get,
}

-- Every request so far went to an address that may be requested.
abbrev pub IsClean : Env → State → Type 0
IsClean env st = All (λ raw. check_allowed env.parse raw ≡ none) st.log

requested-IsClean :
    (env : Env) (raw : Text) (st : State)
    → check_allowed env.parse raw ≡ none
    → IsClean env st
    → IsClean env (requested raw st)
requested-IsClean env raw st h c =
    All-append (λ x. check_allowed env.parse x ≡ none) st.log (raw ∷ []) c (h, tt)

check_redirect-none :
    (parse : Parser) (via : ℕ) (raw : Text)
    → check_redirect parse via raw ≡ none
    → (check_allowed parse raw ≡ none) × (via < 10)
unfolding check_redirect
check_redirect-none parse via raw h = elim (Option-cases (check_allowed parse raw)) [
  | inl e ↦ (e, ground arith)
  | inr (r, e) ↦ absurd (ground arith)
]

reply_cases :
    (r : Reply)
    → ((to : Text) × (r ≡ redirect to))
      ⊎ (((e : Text) × (r ≡ fault e))
          ⊎ ((s : ℕ) × (b : Text) × (f : Option Text) × (r ≡ answer s b f)))
reply_cases (redirect to) = inl (to, refl)
reply_cases (fault e) = inr (inl (e, refl))
reply_cases (answer s b f) = inr (inr (s, b, f, refl))

pub follow-IsClean :
    (env : Env) (fuel via : ℕ) (raw : Text) (st : State)
    → check_allowed env.parse raw ≡ none
    → IsClean env st
    → IsClean env (follow env fuel via raw st).0
unfolding follow
follow-IsClean env zero via raw st h c = c
follow-IsClean env (suc fuel) via raw st h c = elim (reply_cases (env.reply st.turn raw)) [
  | inl (to, e) ↦ elim (Option-cases (check_redirect env.parse (suc via) to)) [
    | inl f ↦
        rw (e, f, follow)
          (follow-IsClean env fuel (suc via) to (requested raw st)
            (check_redirect-none env.parse (suc via) to f).0 (requested-IsClean env raw st h c))
    | inr (r, f) ↦ rw (e, f, follow) (requested-IsClean env raw st h c)
  ]
  | inr (inl (x, e)) ↦ rw (e, follow) (requested-IsClean env raw st h c)
  | inr (inr (x, y, z, e)) ↦ rw (e, follow) (requested-IsClean env raw st h c)
]

pub do_get-IsClean :
    (env : Env) (raw : Text) (st : State)
    → ((u : Url) → env.parse raw ≡ some u → check_allowed env.parse raw ≡ none)
    → IsClean env st
    → IsClean env (do_get env raw st).0
unfolding do_get
do_get-IsClean env raw st h c = elim (Option-cases (env.parse raw)) [
  | inl e ↦ rw (e, do_get) c
  | inr (u, e) ↦ rw (e, do_get) (follow-IsClean env rounds 0 raw st (h u e) c)
]

-- Waiting requests nothing and leaves the rules that are kept.
pub wait-log :
    (env : Env) (raw : Text) (st : State)
    → ((wait env raw st).0.log ≡ st.log) × ((wait env raw st).0.cache ≡ st.cache)
unfolding wait
wait-log env raw st = elim (Option-cases env.limiter) [
  | inl e ↦ rw (e, wait) (refl, refl)
  | inr (limit, e) ↦ elim (Option-cases (limit st.turn raw)) [
    | inl f ↦ rw (e, f, wait) (refl, refl)
    | inr (x, f) ↦ rw (e, f, wait) (refl, refl)
  ]
]

pub limited_get-IsClean :
    (env : Env) (raw : Text) (st : State)
    → ((u : Url) → env.parse raw ≡ some u → check_allowed env.parse raw ≡ none)
    → IsClean env st
    → IsClean env (limited_get env raw st).0
unfolding limited_get
limited_get-IsClean env raw st h c =
    go (wait env raw st)
      (subst (All λ x. check_allowed env.parse x ≡ none) (sym (wait-log env raw st).0) c)
  where
    go : (w : State × Option Error) → IsClean env w.0 → IsClean env (get_file env raw w).0
    go (st', some e) c = c
    go (st', none) c = do_get-IsClean env raw st' h c

-- A request changes nothing in the rules that are kept, and the requests made before and those that
-- follow are at most ten.
follow-cache :
    (env : Env) (fuel via : ℕ) (raw : Text) (st : State)
    → via < 10
    → ((follow env fuel via raw st).0.cache ≡ st.cache)
      × (length (follow env fuel via raw st).0.log + via ≤ length st.log + 10)
unfolding follow
follow-cache env zero via raw st few = (refl, omega (arith, few))
follow-cache env (suc fuel) via raw st few = elim (reply_cases (env.reply st.turn raw)) [
  | inl (to, e) ↦ elim (Option-cases (check_redirect env.parse (suc via) to)) [
    | inl f ↦
        let (same, rest) =
          follow-cache env fuel (suc via) to (requested raw st)
            (check_redirect-none env.parse (suc via) to f).1 in
        rw (e, f, follow) (same, omega (arith, rest, one))
    | inr (r, f) ↦ rw (e, f, follow) (refl, omega (arith, few, one))
  ]
  | inr (inl (x, e)) ↦ rw (e, follow) (refl, omega (arith, few, one))
  | inr (inr (x, y, z, e)) ↦ rw (e, follow) (refl, omega (arith, few, one))
]
  where
    one : length (st.log ++ raw ∷ []) ≡ length st.log + 1
    one = length-append st.log (raw ∷ [])

-- Ten rounds, the requests made before counted, are enough: any two numbers of them give the same.
follow-enough :
    (env : Env) (f g via : ℕ) (raw : Text) (st : State)
    → via < 10
    → 10 ≤ via + f
    → 10 ≤ via + g
    → follow env f via raw st ≡ follow env g via raw st
unfolding follow
follow-enough env zero g via raw st few a b = absurd (omega (arith, few, a))
follow-enough env (suc f) zero via raw st few a b = absurd (omega (arith, few, b))
follow-enough env (suc f) (suc g) via raw st few a b = elim (reply_cases (env.reply st.turn raw)) [
  | inl (to, e) ↦ elim (Option-cases (check_redirect env.parse (suc via) to)) [
    | inl k ↦
        rw (e, k, follow)
          (follow-enough env f g (suc via) to (requested raw st)
            (check_redirect-none env.parse (suc via) to k).1 (omega (arith, a)) (omega (arith, b)))
    | inr (r, k) ↦ rw (e, k, follow) refl
  ]
  | inr (inl (x, e)) ↦ rw (e, follow) refl
  | inr (inr (x, y, z, e)) ↦ rw (e, follow) refl
]

-- A GET makes at most ten requests, its redirects included, and leaves the rules that are kept. It ends:
-- any number of rounds from ten on gives the same result.
pub do_get-at_most_ten :
    (env : Env) (raw : Text) (st : State) (fuel : ℕ)
    → 10 ≤ fuel
    → ((do_get env raw st).0.cache ≡ st.cache)
      × (length (do_get env raw st).0.log ≤ length st.log + 10)
      × (send env fuel raw st (env.parse raw) ≡ do_get env raw st)
unfolding do_get
do_get-at_most_ten env raw st fuel enough = elim (Option-cases (env.parse raw)) [
  | inl e ↦ rw (e, do_get) (refl, omega arith, refl)
  | inr (u, e) ↦
      let (same, few) = follow-cache env rounds 0 raw st (omega arith) in
      rw (e, do_get)
        (
          same,
          omega (arith, few),
          follow-enough env fuel rounds 0 raw st (omega arith) (omega (arith, enough))
              (omega arith),
        )
]

pub limited_get-cache :
    (env : Env) (raw : Text) (st : State) → (limited_get env raw st).0.cache ≡ st.cache
unfolding limited_get get_file
limited_get-cache env raw st = go (wait env raw st) (wait-log env raw st).1
  where
    go : (w : State × Option Error) → w.0.cache ≡ st.cache → (get_file env raw w).0.cache ≡ st.cache
    go (st', some e) h = h
    go (st', none) h = (do_get-at_most_ten env raw st' rounds (omega arith)).0 ∙ h
