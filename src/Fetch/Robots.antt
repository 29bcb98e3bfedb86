-- ===== src/Fetch/Robots.antt =====
-- internal/fetch/robots.go: a site's rules for the bot, which rule decides, and the cache of rules.
-- Text is bytes, and white space and letters are those of ASCII.
pub mod Match
pub mod Allowed
use speakertrail.Common.{
  ℕ, zero, suc, ◌+◌, ◌*◌, Bool, true, false, not, ◌&&◌, ◌||◌, Option, none, some, List, [], ◌∷◌,
  ◌++◌, Text, bytes, text_eq, is_empty, after_prefix, has_suffix, trim_suffix, contains, to_lower,
  trim_space, length, take, ltb, leb, ◌==◌, if◌then◌else◌,
}

pub record Rule : Type 0 where
  pub allow : Bool
  pub pattern : Text

pub record Rules : Type 0 where
  pub disallow_all : Bool
  pub rules : List Rule

abbrev cons_first : ℕ → List Text → List Text
cons_first c [] = (c ∷ []) ∷ []
cons_first c (p ∷ ps) = (c ∷ p) ∷ ps

-- strings.Split(s, sep) at a separator of one byte.
unfoldable pub split_at : ℕ → Text → List Text
split_at sep [] = [] ∷ []
split_at sep (c ∷ cs) =
    let rest = split_at sep cs in if c == sep then [] ∷ rest else cons_first c rest

-- `.*` and the rest of the expression, from somewhere on: `.` is any byte but a newline.
unfoldable pub seek : (Text → Bool) → Text → Bool
seek here [] = here []
seek here (c ∷ cs) = here (c ∷ cs) || (not (c == 10) && seek here cs)

abbrev after : (Text → Bool) → Option Text → Bool
after k none = false
after k (some rest) = k rest

-- The expression `^p.*q.*r`, with `$` if anchored, from the part p on.
unfoldable pub match_parts : Bool → Text → List Text → Text → Bool
match_parts anchored p [] s =
    after (λ rest. if anchored then is_empty rest else true) (after_prefix p s)
match_parts anchored p (q ∷ ps) s = after (seek (match_parts anchored q ps)) (after_prefix p s)

match_split : Bool → List Text → Text → Bool
match_split anchored [] s = false
match_split anchored (p ∷ ps) s = match_parts anchored p ps s

-- robotsMatch. The expression that it compiles has quoted parts and `.*` between them only.
unfoldable pub robots_match : Text → Text → Bool
unfolding match_split
robots_match pattern path =
    match_split (has_suffix (bytes "$") pattern) (split_at b'*' (trim_suffix (bytes "$") pattern))
      path

-- best, bestLen and found: `none` until a rule matched.
abbrev pub Best : Type 0
Best = Option (Bool × ℕ)

abbrev pub better : Rule → Best → Bool
better r none = true
better r (some (best, len)) =
    ltb len (length r.pattern) || (length r.pattern == len && r.allow && not best)

-- One round of the loop in `allowed`.
abbrev pub consider : Text → Rule → Best → Best
consider path r best =
    if is_empty r.pattern || not (robots_match r.pattern path)
    then best
    else if better r best
    then some (r.allow, length r.pattern)
    else best

unfoldable pub best_of : Text → List Rule → Best → Best
best_of path [] best = best
best_of path (r ∷ rs) best = best_of path rs (consider path r best)

abbrev pub verdict : Best → Bool
verdict none = true
verdict (some (best, len)) = best

-- allowed: the longest matching rule decides, and on a tie allow wins.
unfoldable pub allowed : Rules → Text → Bool
unfolding best_of
allowed rr path = if rr.disallow_all then false else verdict (best_of path rr.rules none)

pub record Group : Type 0 where
  pub agents : List Text
  pub rules : List Rule

-- The variables of the loop in parseRobots: all groups but the current one, the current one, and
-- whether the last line named an agent.
pub record Reading : Type 0 where
  pub closed : List Group
  pub cur : Option Group
  pub last_was_agent : Bool

abbrev pub all_groups : Reading → List Group
all_groups st = elim st.cur [ none ↦ st.closed | some g ↦ st.closed ++ g ∷ [] ]

abbrev add_agent : Text → Bool → Option Group → List Group → Reading
add_agent a last none closed = record {
  closed = closed;
  cur = some (record { agents = a ∷ []; rules = [] });
  last_was_agent = true;
}
add_agent a true (some g) closed = record {
  closed = closed;
  cur = some (record g { agents = g.agents ++ a ∷ [] });
  last_was_agent = true;
}
add_agent a false (some g) closed = record {
  closed = closed ++ g ∷ [];
  cur = some (record { agents = a ∷ []; rules = [] });
  last_was_agent = true;
}

abbrev add_rule : Rule → Option Group → Option Group
add_rule r none = none
add_rule r (some g) = some (record g { rules = g.rules ++ r ∷ [] })

-- The switch over the key of a line, in lower case, and its trimmed value.
unfoldable pub read_field : Text → Text → Reading → Reading
read_field key value st =
    if text_eq key (bytes "user-agent")
    then add_agent (to_lower value) st.last_was_agent st.cur st.closed
    else if text_eq key (bytes "allow") || text_eq key (bytes "disallow")
    then record st {
      cur = add_rule (record { allow = text_eq key (bytes "allow"); pattern = value }) st.cur;
      last_was_agent = false;
    }
    else record st { last_was_agent = false }

-- strings.Cut(s, sep) at one byte: what stands before it and after it.
unfoldable pub cut : ℕ → Text → Option (Text × Text)
cut sep [] = none
cut sep (c ∷ cs) =
    let rest = cut sep cs in
    if c == sep then some ([], cs) else elim rest [ none ↦ none | some (a, b) ↦ some (c ∷ a, b) ]

abbrev before : ℕ → Text → Text
before sep s = elim (cut sep s) [ none ↦ s | some (a, b) ↦ a ]

-- One line: what follows a `#` is dropped, and a line without a colon is skipped.
unfoldable pub read_line : Text → Reading → Reading
unfolding cut to_lower trim_space
read_line line st = elim (cut b':' (before b'#' line)) [
  | none ↦ st
  | some (key, value) ↦ read_field (to_lower (trim_space key)) (trim_space value) st
]

unfoldable pub read_lines : List Text → Reading → Reading
read_lines [] st = st
read_lines (l ∷ ls) st = read_lines ls (read_line l st)

-- bufio.Scanner's buffer: a line that does not fit ends the scan.
abbrev pub max_line : ℕ
max_line = 64 * 1024

drop_return : Text → Text
drop_return s = trim_suffix (13 ∷ []) s

-- The lines that the scanner gives: cut at newlines, the last one only if it is not empty.
unfoldable pub scanned : List Text → List Text
unfolding drop_return trim_suffix
scanned [] = []
scanned (l ∷ []) = if is_empty l || leb max_line (length l) then [] else drop_return l ∷ []
scanned (l ∷ m ∷ ls) =
    let rest = scanned (m ∷ ls) in if leb max_line (length l) then [] else drop_return l ∷ rest

-- One agent of a group, in the last loop of parseRobots: mine, star and matched.
abbrev pub Choice : Type 0
Choice = List Rule × List Rule × Bool

abbrev pub choose_agent : Text → List Rule → Text → Choice → Choice
choose_agent agent rules a (mine, star, matched) =
    if text_eq a (bytes "*")
    then (mine, star ++ rules, matched)
    else if not (is_empty a) && contains a agent
    then (mine ++ rules, star, true)
    else (mine, star, matched)

choose_agents : Text → List Rule → List Text → Choice → Choice
choose_agents agent rules [] c = c
choose_agents agent rules (a ∷ more) c =
    choose_agents agent rules more (choose_agent agent rules a c)

unfoldable pub choose : Text → List Group → Choice → Choice
unfolding choose_agents
choose agent [] c = c
choose agent (g ∷ gs) c = choose agent gs (choose_agents agent g.rules g.agents c)

abbrev chosen : Choice → Rules
chosen (mine, star, matched) = record {
  disallow_all = false;
  rules = if matched then mine else star;
}

abbrev pub max_body : ℕ
max_body = 500 * 1024

-- parseRobots
unfoldable pub parse_robots : Text → Text → Rules
unfolding split_at scanned read_lines choose
parse_robots body agent =
    let lines = scanned (split_at 10 (take max_body body)) in
    let st = read_lines lines (record { closed = []; cur = none; last_was_agent = false }) in
    chosen (choose agent (all_groups st) ([], [], false))
