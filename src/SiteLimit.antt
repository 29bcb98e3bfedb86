-- ===== src/SiteLimit.antt =====
-- internal/queue/sitelimit.go: one request per interval to each website. The table `site_slots` is a
-- list of hosts with the time at which the next request may start. Times are microseconds.
pub mod Spacing
mod Examples
use speakertrail.Common.{
  ℕ, ◌+◌, ◌-◌, max, Bool, Option, none, some, List, [], ◌∷◌, Text, bytes, text_eq, is_empty,
  to_lower, trim_prefix, leb, if◌then◌else◌,
}
use speakertrail.Urls.{Url, Parser}

pub data Error : Type 0 where
  bad_url no_host cancelled : Error
  store : Text → Error

pub data Result {ℓ} (A : Type ℓ) : Type ℓ where
  ok : A → Result A
  err : Error → Result A

-- The host of the parsed address in lower case, without a leading "www.".
host_of : Option Url → Result Text
host_of none = err bad_url
host_of (some u) =
    let host = trim_prefix (bytes "www.") (to_lower u.hostname) in
    if is_empty host then err no_host else ok host

-- SiteOf
unfoldable pub site_of : Parser → Text → Result Text
unfolding host_of
site_of parse raw = host_of (parse raw)

abbrev pub Slots : Type 0
Slots = List (Text × ℕ)

-- INSERT … ON CONFLICT (host) DO UPDATE … RETURNING next_request_at - interval
unfoldable pub book : ℕ → ℕ → Text → Slots → Slots × ℕ
book interval now host [] = ((host, now + interval) ∷ [], now)
book interval now host ((h, next) ∷ rest) =
    let (rest', slot) = book interval now host rest in
    if text_eq h host
    then ((h, max next now + interval) ∷ rest, max next now + interval - interval)
    else ((h, next) ∷ rest', slot)

book_for : Option Text → ℕ → ℕ → Result Text → Slots → Slots × Result ℕ
book_for fault interval now (err e) slots = (slots, err e)
book_for (some e) interval now (ok host) slots = (slots, err (store e))
book_for none interval now (ok host) slots =
    let (slots', slot) = book interval now host slots in (slots', ok slot)

-- Reserve: books the next free slot and returns when it starts. `fault` is the database's error.
unfoldable pub reserve : Parser → Option Text → ℕ → ℕ → Text → Slots → Slots × Result ℕ
unfolding book_for
reserve parse fault interval now raw slots = book_for fault interval now (site_of parse raw) slots

-- When Wait returns, for a slot, the clock after the reservation, and the time at which the context
-- is cancelled, if it is.
wake : Option ℕ → ℕ → Result ℕ → Result ℕ
wake cancel now (err e) = err e
wake cancel now (ok slot) =
    if leb slot now
    then ok now
    else elim cancel [ none ↦ ok slot | some c ↦ if leb slot c then ok slot else err cancelled ]

-- Wait: the time at which the caller may send its request.
unfoldable pub wait : Parser → Option Text → Option ℕ → ℕ → ℕ → ℕ → Text → Slots → Slots × Result ℕ
unfolding wake
wait parse fault cancel interval now later raw slots =
    let (slots', slot) = reserve parse fault interval now raw slots in
    (slots', wake cancel later slot)
