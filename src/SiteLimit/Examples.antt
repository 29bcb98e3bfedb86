-- ===== src/SiteLimit/Examples.antt =====
-- The theorems about the site limiter at a concrete table, and tests of it.
use speakertrail.Common.{
  ◌≡◌, refl, none, some, List, [], ◌∷◌, Text, bytes, text_eq, after_prefix, to_lower, trim_prefix,
}
use speakertrail.Urls.{Parser}
use speakertrail.SiteLimit.{Slots, book, reserve, site_of, ok}
use speakertrail.SiteLimit.Spacing.{Request, slots_for, IsSpaced, slots_for-IsSpaced}

-- A parser that takes the whole text for the host.
abbrev host_only : Parser
host_only raw = some (record {
  scheme = bytes "https";
  host = raw;
  hostname = raw;
  path = [];
  escaped_path = [];
  raw_query = [];
})

abbrev site : Text
site = bytes "example.org"

abbrev other_site : Text
other_site = bytes "meetup.com"

abbrev requests : List Request
requests =
    record { now = 100; host = site }
    ∷ record { now = 101; host = other_site }
    ∷ record { now = 90; host = site }
    ∷ record { now = 300; host = site }
    ∷ []

slots_run : slots_for 5 site [] requests ≡ 100 ∷ 105 ∷ 300 ∷ []
unfolding slots_for book text_eq
slots_run = refl

slots_for-IsSpaced_example : IsSpaced 5 (slots_for 5 site [] requests)
slots_for-IsSpaced_example = slots_for-IsSpaced 5 site [] requests

abbrev table : Slots
table = (site, 105) ∷ []

reserve_runs : (reserve host_only none 5 100 (bytes "WWW.Example.org") table).1 ≡ ok 105
unfolding reserve site_of book text_eq to_lower trim_prefix after_prefix
reserve_runs = refl
