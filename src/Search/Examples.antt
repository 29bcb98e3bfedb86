-- ===== src/Search/Examples.antt =====
-- The theorems about searches at concrete budgets, and tests of them.
use speakertrail.Common.{
  ℕ, ◌≡◌, refl, none, List, [], ◌∷◌, Text, bytes, text_eq, if◌then◌else◌, arith,
}
use speakertrail.Search.{
  Pool, new_call, found, failed, World, ok, used, reserve, record_outcome, share, order, place,
  try_each, try_providers,
}
use speakertrail.Search.Budgets.{
  IsWithin, Deed, reserves, records, do_all, do_deed, do_all-IsWithin,
}
use speakertrail.Search.Failover.{IsTrue, try_providers_reports}

abbrev exa : Text
exa = bytes "exa"

abbrev brave : Text
brave = bytes "brave"

-- Two calls a month on exa and one on brave.
abbrev budgets : Text → ℕ
budgets name = if text_eq name exa then 2 else if text_eq name brave then 1 else 0

abbrev pool : Pool
pool = record {
  calls = new_call 1 50 exa (bytes "a") ∷ new_call 2 120 exa (bytes "b") ∷ [];
  next_id = 3;
  budget = budgets;
}

-- Brave fails, exa answers.
abbrev world : World
world = record {
  month = λ turn. 100;
  now = λ turn. 130;
  reserve_fault = λ turn. none;
  answer = λ turn name. if text_eq name brave then failed 0 (bytes "down") else found 7;
  record_fault = λ turn. none;
}

fails_over : (try_providers world none 100 (bytes "q") (exa ∷ brave ∷ []) pool).1 ≡ ok exa
unfolding try_providers order place share used try_each reserve record_outcome text_eq
fails_over = refl

-- Brave, with all of its budget left, is asked first.
brave_first : order 100 pool (exa ∷ brave ∷ []) ≡ brave ∷ exa ∷ []
unfolding order place share used text_eq
brave_first = refl

try_providers_reports_example :
    IsTrue world
      (exa ∷ brave ∷ [])
      pool
      (try_providers world none 100 (bytes "q") (exa ∷ brave ∷ []) pool).0
      (try_providers world none 100 (bytes "q") (exa ∷ brave ∷ []) pool).1
try_providers_reports_example =
    try_providers_reports world none 100 (bytes "q") (exa ∷ brave ∷ []) pool

within : IsWithin exa 100 pool
unfolding used text_eq
within = omega arith

abbrev deeds : List Deed
deeds =
    reserves 100 130 exa (bytes "c")
    ∷ reserves 100 131 exa (bytes "d")
    ∷ records 3 (found 4)
    ∷ reserves 100 132 exa (bytes "e")
    ∷ []

third_refused : used exa 100 (do_all pool deeds).calls ≡ 2
unfolding do_all do_deed reserve record_outcome used text_eq
third_refused = refl

do_all-IsWithin_example : IsWithin exa 100 (do_all pool deeds)
do_all-IsWithin_example =
    do_all-IsWithin exa 100 deeds pool (λ h. refl, (λ h. refl, (tt, (λ h. refl, tt)))) within
