-- ===== src/Fetch/Shell.antt =====
-- internal/fetch/fetch.go: whether a page seems to be an empty shell that only fills itself with
-- JavaScript. And proxy.go: which connections of the browser are let through.
use speakertrail.Common.{
  ℕ, suc, Bool, true, false, not, ◌&&◌, ◌||◌, Option, none, some, [], ◌∷◌, Text, bytes, is_empty,
  to_lower, contains, has_prefix, trim_space, length, ltb, leb, if◌then◌else◌,
}
use speakertrail.Fetch.Guard.{is_blocked_host}

-- What LooksLikeJSShell reads of a page.
pub record Loaded : Type 0 where
  pub content_type : Text
  pub body : Text
  pub text : Text

-- IsHTML
unfoldable pub is_html : Loaded → Bool
unfolding contains
is_html p = is_empty p.content_type || contains (bytes "html") p.content_type

-- strings.Count of a text that does not overlap itself
unfoldable pub occurrences : Text → Text → ℕ
unfolding has_prefix
occurrences sub [] = 0
occurrences sub (c ∷ s) = let n = occurrences sub s in if has_prefix sub (c ∷ s) then suc n else n

abbrev asks_for_script : Text → Bool
unfolding contains
asks_for_script lower =
    contains (bytes "enable javascript") lower
    || contains (bytes "javascript aktivieren") lower
    || contains (bytes "javascript to run") lower
    || contains (bytes "requires javascript") lower

is_shell : Text → Text → Bool
unfolding asks_for_script occurrences contains
is_shell text lower =
    if ltb (length text) 300
    then true
    else if ltb (length text) 1500 && contains (bytes "<noscript") lower && asks_for_script lower
    then true
    else ltb (length text) 800 && leb 5 (occurrences (bytes "<script") lower)

-- LooksLikeJSShell. The nil page is `none`.
unfoldable pub looks_like_js_shell : Option Loaded → Bool
unfolding is_shell is_html to_lower trim_space
looks_like_js_shell none = false
looks_like_js_shell (some p) =
    if not (is_html p) then false else is_shell (trim_space p.text) (to_lower p.body)

-- A request of the browser: its method CONNECT or another one, the host of its address, and the host
-- that net.SplitHostPort finds in what it connects to, empty if none.
pub record ProxyRequest : Type 0 where
  pub is_connect : Bool
  pub url_host : Text
  pub connect_host : Text

pub data Passage : Type 0 where
  forbidden tunnel forward : Passage

-- ServeHTTP of the filter proxy
unfoldable pub serve : ProxyRequest → Passage
unfolding is_blocked_host
serve r =
    let host = if r.is_connect then r.connect_host else r.url_host in
    if is_blocked_host host then forbidden else if r.is_connect then tunnel else forward
