-- ===== src/Fetch/Examples.antt =====
-- The theorems about page loads at a concrete site, and tests of them.
use mathlib.Core.List.{Memᴰ}
use speakertrail.Common.{
  ℕ, ◌+◌, ◌*◌, ◌≤◌, ◌≡◌, ◌↔◌, refl, sym, ap, ◌∙◌, ◌⊎◌, inl, inr, true, false, Option, none, some,
  [], ◌∷◌, ◌++◌, Text, bytes, text_eq, has_suffix, trim_suffix, after_prefix, to_lower, All, length,
  arith, Bool-cases, ◌==◌, if◌then◌else◌,
}
use speakertrail.Urls.{Url, Parser}
use speakertrail.Fetch.Guard.{
  check_allowed, is_blocked_host, IsUnder, blocked_domains, is_blocked_host_iff,
}
use speakertrail.Fetch.Robots.{
  Rules, split_at, scanned, read_lines, read_line, read_field, choose, best_of, match_parts, seek,
  robots_match, allowed, parse_robots,
}
use speakertrail.Fetch.Robots.Match.{MatchesAny, robots_match_iff}
use speakertrail.Fetch.Robots.Allowed.{applies, HasLongestAllow, allowed_iff}
use speakertrail.Fetch.Client.{
  Env, State, Entry, ok, err, Reply, redirect, answer, fault, send, do_get, wait, follow,
  check_redirect, limited_get, robots, network,
}
use speakertrail.Fetch.Client.Requests.{IsClean, do_get-at_most_ten}
use speakertrail.Fetch.Cache.{
  kept, keep, may_fetch, rules_of, rules_for, read_clock, KeepsHost, origin_of,
}
use speakertrail.Fetch.Fetcher.{checked, http, http-IsClean}
use speakertrail.Fetch.Fetcher.Obeys.{IsPermitted, http_obeys}

-- A parser for addresses of https without a query: a host, and a path from the first slash on.
host_part : Text → Text
host_part [] = []
host_part (c ∷ cs) = let rest = host_part cs in if c == b'/' then [] else c ∷ rest

path_part : Text → Text
path_part [] = []
path_part (c ∷ cs) = let rest = path_part cs in if c == b'/' then c ∷ cs else rest

abbrev url_of : Text → Url
url_of r = record {
  scheme = bytes "https";
  host = host_part r;
  hostname = host_part r;
  path = path_part r;
  escaped_path = path_part r;
  raw_query = [];
}

after_scheme : Option Text → Option Url
after_scheme none = none
after_scheme (some r) = some (url_of r)

parse_https : Parser
unfolding after_scheme
parse_https raw = after_scheme (after_prefix (bytes "https://") raw)

host_part_again : (r q : Text) → host_part (host_part r ++ b'/' ∷ q) ≡ host_part r
unfolding host_part
host_part_again [] q = refl
host_part_again (c ∷ cs) q = elim (Bool-cases (c == b'/')) [
  | inl e ↦ rw (e, host_part) refl
  | inr e ↦ rw (e, host_part) (rw (e, host_part) (ap (λ x. c ∷ x) (host_part_again cs q)))
]

robots_parses :
    (r : Text)
    → parse_https (origin_of (url_of r) ++ bytes "/robots.txt")
      ≡ some (url_of (host_part r ++ bytes "/robots.txt"))
unfolding parse_https after_scheme after_prefix
robots_parses r = refl

after_scheme-robots :
    (o : Option Text) (u v : Url)
    → after_scheme o ≡ some u
    → parse_https (origin_of u ++ bytes "/robots.txt") ≡ some v
    → (v.scheme ≡ u.scheme) × (v.hostname ≡ u.hostname)
unfolding after_scheme
after_scheme-robots none u v e f = absurd (ground arith)
after_scheme-robots (some r) u v e f =
    let same : u ≡ url_of r = cc in
    let there : v ≡ url_of (host_part r ++ bytes "/robots.txt") =
      unwrap (sym (rw (same, robots_parses r) at f)) in
    (
      ap (λ x. x.scheme) there ∙ sym (ap (λ x. x.scheme) same),
      ap (λ x. x.hostname) there
          ∙ (host_part_again r (bytes "robots.txt") ∙ sym (ap (λ x. x.hostname) same)),
    )
  where
    unwrap : {a b : Url} → some a ≡ some b → a ≡ b
    unwrap h = cc

parse_https-KeepsHost : KeepsHost parse_https
unfolding parse_https
parse_https-KeepsHost raw u v e f =
    after_scheme-robots (after_prefix (bytes "https://") raw) u v e f

-- A site that closes /private to bots, forwards /old to /new, and /spy to Instagram.
serve : ℕ → Text → Reply
serve turn raw =
    if text_eq raw (bytes "https://ab.de/robots.txt")
    then answer 200 (bytes "User-agent: *\nDisallow: /private\nAllow: /private/ok") none
    else if text_eq raw (bytes "https://ab.de/old")
    then redirect (bytes "https://ab.de/new")
    else if text_eq raw (bytes "https://ab.de/spy")
    then redirect (bytes "https://www.Instagram.com/x")
    else answer 200 (bytes "hello") none

abbrev world : Env
world = record {
  parse = parse_https;
  limiter = some (λ turn raw. none);
  reply = serve;
  now = λ turn. 1000 * turn;
  agent = bytes "speakertrailbot";
}

abbrev start : State
start = record { turn = 0; log = []; cache = [] }

abbrev old_page : Text
old_page = bytes "https://ab.de/old"

old_loads : (http world old_page start).1.1 ≡ none
unfolding http checked may_fetch rules_for kept keep serve parse_https after_scheme host_part
    path_part after_prefix text_eq check_allowed is_blocked_host to_lower trim_suffix has_suffix
    limited_get do_get send wait follow check_redirect rules_of parse_robots split_at scanned
    read_lines read_line read_field choose allowed best_of robots_match match_parts seek
old_loads = refl

-- The page at /spy forwards to Instagram: the redirect is not followed.
spy_log :
    (http world (bytes "https://ab.de/spy") start).0.log
    ≡ bytes "https://ab.de/robots.txt" ∷ bytes "https://ab.de/spy" ∷ []
unfolding http checked may_fetch rules_for kept keep serve parse_https after_scheme host_part
    path_part after_prefix text_eq check_allowed is_blocked_host to_lower trim_suffix has_suffix
    limited_get do_get send wait follow check_redirect rules_of parse_robots split_at scanned
    read_lines read_line read_field choose allowed best_of robots_match match_parts seek
spy_log = refl

http_obeys_example :
    (check_allowed parse_https old_page ≡ none)
    × IsPermitted world old_page (http world old_page start).0
http_obeys_example = http_obeys world old_page start old_loads

http-IsClean_example : IsClean world (http world (bytes "https://ab.de/spy") start).0
http-IsClean_example = http-IsClean world (bytes "https://ab.de/spy") start parse_https-KeepsHost tt

do_get-at_most_ten_example :
    ((do_get world old_page start).0.cache ≡ [])
    × (length (do_get world old_page start).0.log ≤ 0 + 10)
    × (send world 10 old_page start (world.parse old_page) ≡ do_get world old_page start)
do_get-at_most_ten_example = do_get-at_most_ten world old_page start 10 (omega arith)

abbrev site_rules : Rules
site_rules = record {
  disallow_all = false;
  rules =
      record { allow = false; pattern = bytes "/private" }
      ∷ record { allow = true; pattern = bytes "/private/ok" }
      ∷ [];
}

abbrev site_entry : Entry
site_entry = record { rules = site_rules; fetched = 5000 }

abbrev with_rules : State
with_rules = record { turn = 7; log = []; cache = (bytes "https://ab.de", site_entry) ∷ [] }

with_rules_gives :
    rules_for world (bytes "https://ab.de") with_rules ≡ (read_clock with_rules, ok site_rules)
unfolding http checked may_fetch rules_for kept keep serve parse_https after_scheme host_part
    path_part after_prefix text_eq check_allowed is_blocked_host to_lower trim_suffix has_suffix
    limited_get do_get send wait follow check_redirect rules_of parse_robots split_at scanned
    read_lines read_line read_field choose allowed best_of robots_match match_parts seek
with_rules_gives = refl

with_rules_keeps : kept (bytes "https://ab.de") with_rules.cache ≡ some site_entry
unfolding kept text_eq
with_rules_keeps = refl

abbrev broken_world : Env
broken_world = record world { reply = λ turn raw. fault (bytes "no route") }

abbrev after_fault : State
after_fault = record { turn = 2; log = bytes "https://ab.de/robots.txt" ∷ []; cache = [] }

fault_comes :
    rules_for broken_world (bytes "https://ab.de") start
    ≡ (after_fault, err (robots (network (bytes "no route"))))
unfolding http checked may_fetch rules_for kept keep serve parse_https after_scheme host_part
    path_part after_prefix text_eq check_allowed is_blocked_host to_lower trim_suffix has_suffix
    limited_get do_get send wait follow check_redirect rules_of parse_robots split_at scanned
    read_lines read_line read_field choose allowed best_of robots_match match_parts seek
fault_comes = refl

robots_match_iff_example :
    (robots_match (bytes "/a*b$") (bytes "/axxb") ≡ true)
    ↔ MatchesAny
        (has_suffix (bytes "$") (bytes "/a*b$"))
        (split_at b'*' (trim_suffix (bytes "$") (bytes "/a*b$")))
        (bytes "/axxb")
robots_match_iff_example = robots_match_iff (bytes "/a*b$") (bytes "/axxb")

matches_run : robots_match (bytes "/a*b$") (bytes "/axxb") ≡ true
unfolding http checked may_fetch rules_for kept keep serve parse_https after_scheme host_part
    path_part after_prefix text_eq check_allowed is_blocked_host to_lower trim_suffix has_suffix
    limited_get do_get send wait follow check_redirect rules_of parse_robots split_at scanned
    read_lines read_line read_field choose allowed best_of robots_match match_parts seek
matches_run = refl

allowed_iff_example : (allowed site_rules (bytes "/private/ok/1") ≡ true) ↔ (
    (false ≡ false)
    × (All (λ x. applies (bytes "/private/ok/1") x ≡ false) site_rules.rules
        ⊎ HasLongestAllow (bytes "/private/ok/1") site_rules.rules))
allowed_iff_example = allowed_iff site_rules (bytes "/private/ok/1")

is_blocked_host_iff_example : (is_blocked_host (bytes "de.LinkedIn.com.") ≡ true) ↔ (
    (d : Text) × Memᴰ d blocked_domains
    × IsUnder (trim_suffix (bytes ".") (to_lower (bytes "de.LinkedIn.com."))) d)
is_blocked_host_iff_example = is_blocked_host_iff (bytes "de.LinkedIn.com.")

blocked_run : is_blocked_host (bytes "de.LinkedIn.com.") ≡ true
unfolding http checked may_fetch rules_for kept keep serve parse_https after_scheme host_part
    path_part after_prefix text_eq check_allowed is_blocked_host to_lower trim_suffix has_suffix
    limited_get do_get send wait follow check_redirect rules_of parse_robots split_at scanned
    read_lines read_line read_field choose allowed best_of robots_match match_parts seek
blocked_run = refl
