-- ===== src/Sessions/Guesses.antt =====
-- The limit on password guesses over any sequence of attempts.
use mathlib.Core.List.{append_assoc, append-nil}
use speakertrail.Common.{
  ℕ, zero, suc, ◌+◌, ◌-◌, ◌≤◌, ◌<◌, ◌≡◌, refl, sym, ap, ◌∙◌, ◌⊎◌, inl, inr, Bool, true, false, ◌&&◌,
  List, [], ◌∷◌, ◌++◌, Text, text_eq, text_eq_iff, All, All-append, All-weaken, length,
  length-append, keep_if, leb, arith, if◌then◌else◌, Bool-cases,
}
use speakertrail.Sessions.{
  Sessions, Request, login_window, login_attempts, is_recent, allow_at, allow_attempt, client_ip,
}

-- One login request and the time at which it comes.
pub record Attempt : Type 0 where
  pub request : Request
  pub now : ℕ

-- The times of the attempts from an address that are let through.
unfoldable pub let_through : Text → Sessions → List Attempt → List ℕ
let_through ip s [] = []
let_through ip s (a ∷ more) =
    let (s', ok) = allow_attempt a.request a.now s in
    let rest = let_through ip s' more in
    if text_eq ip (client_ip a.request) && ok then a.now ∷ rest else rest

-- The clock does not go back.
abbrev pub IsOrdered : ℕ → List Attempt → Type 0
IsOrdered last [] = Unit
IsOrdered last (a ∷ more) = (last ≤ a.now) × IsOrdered a.now more

abbrev pub skip : ℕ → List ℕ → List ℕ
skip zero ts = ts
skip (suc n) [] = []
skip (suc n) (t ∷ ts) = skip n ts

-- From each time on, the fifth one after it comes at least a window later, as do all that follow.
abbrev pub IsLimited : List ℕ → Type 0
IsLimited [] = Unit
IsLimited (t ∷ ts) = All (λ x. t + login_window ≤ x) (skip (login_attempts - 1) ts) × IsLimited ts

abbrev IsSorted : List ℕ → Type 0
IsSorted [] = Unit
IsSorted (t ∷ ts) = All (λ x. t ≤ x) ts × IsSorted ts

IsSorted-snoc :
    (ts : List ℕ) (now : ℕ) → IsSorted ts → All (λ t. t ≤ now) ts → IsSorted (ts ++ now ∷ [])
IsSorted-snoc [] now s a = (tt, tt)
IsSorted-snoc (t ∷ ts) now s a =
    (All-append (λ x. t ≤ x) ts (now ∷ []) s.0 (a.0, tt), IsSorted-snoc ts now s.1 a.1)

-- What is recent later was recent before.
keep_if-earlier :
    (last now : ℕ) (ts : List ℕ)
    → last ≤ now
    → keep_if (is_recent now) (keep_if (is_recent last) ts) ≡ keep_if (is_recent now) ts
keep_if-earlier last now [] h = refl
keep_if-earlier last now (t ∷ ts) h = ground (arith, keep_if-earlier last now ts h)

keep_if-All : (p : ℕ → Bool) (ts : List ℕ) → All (λ t. p t ≡ true) ts → keep_if p ts ≡ ts
keep_if-All p [] h = refl
keep_if-All p (t ∷ ts) h = rw (h.0) (ap (λ u. t ∷ u) (keep_if-All p ts h.1))

keep_if-append :
    (p : ℕ → Bool) (ts us : List ℕ) → keep_if p (ts ++ us) ≡ keep_if p ts ++ keep_if p us
keep_if-append p [] us = refl
keep_if-append p (x ∷ ts) us = elim (Bool-cases (p x)) [
  | inl e ↦ rw e (ap (λ u. x ∷ u) (keep_if-append p ts us))
  | inr e ↦ rw e (keep_if-append p ts us)
]

skip-snoc :
    (P : ℕ → Type 0) (n : ℕ) (ts : List ℕ) (t : ℕ)
    → All P (skip n ts)
    → P t
    → All P (skip n (ts ++ t ∷ []))
skip-snoc P zero ts t a h = All-append P ts (t ∷ []) a (h, tt)
skip-snoc P (suc zero) [] t a h = tt
skip-snoc P (suc (suc n)) [] t a h = tt
skip-snoc P (suc n) (x ∷ ts) t a h = skip-snoc P n ts t a h

skip_short : (P : ℕ → Type 0) (n : ℕ) (ts : List ℕ) → length ts ≤ n → All P (skip n ts)
skip_short P zero [] h = tt
skip_short P zero (t ∷ ts) h = absurd (omega arith)
skip_short P (suc n) [] h = tt
skip_short P (suc n) (t ∷ ts) h = skip_short P n ts (omega arith)

-- Letting one more through keeps the limit, if fewer than five were let through in the window.
IsLimited-snoc :
    (now : ℕ) (ts : List ℕ)
    → IsSorted ts
    → IsLimited ts
    → length (keep_if (is_recent now) ts) < login_attempts
    → IsLimited (ts ++ now ∷ [])
IsLimited-snoc now [] s l h = (tt, tt)
IsLimited-snoc now (t ∷ ts) s l h = elim (Bool-cases (is_recent now t)) [
  | inl e ↦
      let all : keep_if (is_recent now) (t ∷ ts) ≡ t ∷ ts =
        keep_if-All (is_recent now) (t ∷ ts) (e, All-weaken ts (λ x k. ground arith) s.0) in
      let fewer : suc (length (keep_if (is_recent now) ts)) < 5 = rw e at h in
      let few : length (t ∷ ts) < 5 = rw all at h in
      (
        skip_short (λ x. t + login_window ≤ x) 4 (ts ++ now ∷ [])
            (omega (arith, length-append ts (now ∷ []))),
        IsLimited-snoc now ts s.1 l.1 (omega arith),
      )
  | inr e ↦ (
    skip-snoc (λ x. t + login_window ≤ x) 4 ts now l.0 (ground arith),
    IsLimited-snoc now ts s.1 l.1 (rw e at h),
  )
]

-- What is kept for an address is what was let through from it, as far as it is recent or will be.
abbrev IsKept : Text → Sessions → ℕ → List ℕ → Type 0
IsKept ip s last acc =
    (now : ℕ) → last ≤ now → keep_if (is_recent now) (s.attempts ip) ≡ keep_if (is_recent now) acc

-- One attempt, from the address or from another one.
allow_at_cases :
    (ip a : Text) (last now : ℕ) (acc : List ℕ) (s : Sessions)
    → last ≤ now
    → IsKept ip s last acc
    → (((text_eq ip a && (allow_at a now s).1) ≡ false) × IsKept ip (allow_at a now s).0 now acc)
      ⊎ (((text_eq ip a && (allow_at a now s).1) ≡ true)
          × (length (keep_if (is_recent now) acc) < login_attempts)
          × IsKept ip (allow_at a now s).0 now (acc ++ now ∷ []))
unfolding allow_at
allow_at_cases ip a last now acc s h k =
    elim (Bool-cases (leb login_attempts (length (keep_if (is_recent now) (s.attempts a))))) [
      | inl full ↦ elim (Bool-cases (text_eq ip a)) [
        | inl same ↦
            let e : ip ≡ a = (text_eq_iff ip a).0 same in
            inl (
              rw (full, same, allow_at) refl,
              λ t l.
                  rw (full, same, allow_at)
                    (keep_if-earlier now t (s.attempts a) l ∙ rw e at (k t (omega arith))),
            )
        | inr other ↦
            inl (
              rw (full, other, allow_at) refl,
              λ t l. rw (full, other, allow_at) (k t (omega arith)),
            )
      ]
      | inr free ↦ elim (Bool-cases (text_eq ip a)) [
        | inl same ↦
            let e : ip ≡ a = (text_eq_iff ip a).0 same in
            let now_kept : keep_if (is_recent now) (s.attempts a) ≡ keep_if (is_recent now) acc =
              rw e at (k now h) in
            inr (
              rw (free, same, allow_at) refl,
              ground (arith, now_kept),
              λ t l.
                  rw (free, same, allow_at)
                    (keep_if-append (is_recent t) (keep_if (is_recent now) (s.attempts a))
                        (now ∷ [])
                      ∙ (ap (λ u. u ++ keep_if (is_recent t) (now ∷ []))
                            (keep_if-earlier now t (s.attempts a) l ∙ rw e at (k t (omega arith)))
                          ∙ sym (keep_if-append (is_recent t) acc (now ∷ [])))),
            )
        | inr other ↦
            inl (
              rw (free, other, allow_at) refl,
              λ t l. rw (free, other, allow_at) (k t (omega arith)),
            )
      ]
    ]

IsLimited-from :
    (ip : Text) (last : ℕ) (acc : List ℕ) (s : Sessions) (as' : List Attempt)
    → IsKept ip s last acc
    → All (λ t. t ≤ last) acc
    → IsSorted acc
    → IsLimited acc
    → IsOrdered last as'
    → IsLimited (acc ++ let_through ip s as')
unfolding let_through allow_attempt
IsLimited-from ip last acc s [] k b so li o = rw (append-nil acc) li
IsLimited-from ip last acc s (a ∷ more) k b so li o =
    let s' = (allow_at (client_ip a.request) a.now s).0 in
    elim (allow_at_cases ip (client_ip a.request) last a.now acc s o.0 k) [
      | inl (e, k') ↦
          rw e (
            IsLimited-from ip a.now acc s' more k' (All-weaken acc (λ t l. omega arith) b) so li
              o.1)
      | inr (e, few, k') ↦
          let b' : All (λ t. t ≤ a.now) acc = All-weaken acc (λ t l. omega arith) b in
          rw (e, sym (append_assoc acc (a.now ∷ []) (let_through ip s' more)))
            (IsLimited-from ip a.now (acc ++ a.now ∷ []) s' more k'
              (All-append (λ t. t ≤ a.now) acc (a.now ∷ []) b' (omega arith, tt))
              (IsSorted-snoc acc a.now so b') (IsLimited-snoc a.now acc so li few) o.1)
    ]

-- Of the attempts from one address that are let through, over any sequence of attempts from any
-- addresses whose times do not go back, at most five come within any minute, if none of the address was
-- remembered before.
pub let_through-IsLimited :
    (ip : Text) (start : ℕ) (s : Sessions) (attempts : List Attempt)
    → s.attempts ip ≡ []
    → IsOrdered start attempts
    → IsLimited (let_through ip s attempts)
let_through-IsLimited ip start s attempts h o =
    IsLimited-from ip start [] s attempts (λ t l. rw h refl) tt tt tt o
