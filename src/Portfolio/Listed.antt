-- ===== src/Portfolio/Listed.antt =====
-- internal/pipeline/portfolio.go: a check of a portfolio leaves out no startup of the pages that it reads.
use speakertrail.Common.{
  ℕ, zero, suc, Bool, true, ◌≡◌, ◌≢◌, ◌⊎◌, refl, ◌∙◌, inl, inr, List, [], ◌∷◌, ◌++◌, Text, text_eq,
  text_eq_iff, text_eq_refl, any_where, any_where-append, any_where-snoc, All, All-weaken, arith,
  Bool-cases, Option-cases,
}
use speakertrail.Portfolio.{
  Startup, Env, State, is_seen, key_of, see_startup, see_startups, see_more, see_all_more,
  read_page, with_load, go_on, crawl, start, portfolio_startups,
}

abbrev pub is_listed : Text → List Startup → Bool
is_listed key out = any_where (λ (o : Startup). text_eq key (key_of o)) out

-- A key that is seen is the portfolio's own address, or one of a startup that is listed.
abbrev AreListed : Text → State → Type 0
AreListed base st =
    (key : Text) → is_seen st.seen key ≡ true → (key ≡ base) ⊎ (is_listed key st.out ≡ true)

see_startup-keeps :
    (s : Startup) (st : State) (key : Text)
    → is_listed key st.out ≡ true
    → is_listed key (see_startup s st).out ≡ true
unfolding see_startup
see_startup-keeps s st key h = elim (Bool-cases (is_seen st.seen (key_of s))) [
  | inl e ↦ rw e h
  | inr e ↦
      let a = any_where-append (λ (o : Startup). text_eq key (key_of o)) st.out (s ∷ []) in
      rw e (ground arith)
]

see_startups-keeps :
    (ss : List Startup) (st : State) (key : Text)
    → is_listed key st.out ≡ true
    → is_listed key (see_startups ss st).out ≡ true
unfolding see_startups
see_startups-keeps [] st key h = h
see_startups-keeps (s ∷ ss) st key h =
    see_startups-keeps ss (see_startup s st) key (see_startup-keeps s st key h)

see_startup-lists :
    (base : Text) (s : Startup) (st : State)
    → AreListed base st
    → key_of s ≢ base
    → is_listed (key_of s) (see_startup s st).out ≡ true
unfolding see_startup
see_startup-lists base s st h k = elim (Bool-cases (is_seen st.seen (key_of s))) [
  | inl e ↦ rw e (elim (h (key_of s) e) [ inl b ↦ absurd (k b) | inr l ↦ l ])
  | inr e ↦ rw e (
      any_where-snoc (λ (o : Startup). text_eq (key_of s) (key_of o)) st.out s
        (text_eq_refl (key_of s)))
]

snoc-AreListed :
    (base : Text) (s : Startup) (st : State)
    → AreListed base st
    → AreListed base (record st { seen = key_of s ∷ st.seen; out = st.out ++ s ∷ [] })
unfolding any_where
snoc-AreListed base s st h key seen = elim (Bool-cases (text_eq key (key_of s))) [
  | inl e ↦ inr (any_where-snoc (λ (o : Startup). text_eq key (key_of o)) st.out s e)
  | inr e ↦ elim (h key (ground arith)) [
    | inl b ↦ inl b
    | inr l ↦
        let a = any_where-append (λ (o : Startup). text_eq key (key_of o)) st.out (s ∷ []) in
        inr (ground arith)
  ]
]

see_startup-AreListed :
    (base : Text) (s : Startup) (st : State) → AreListed base st → AreListed base (see_startup s st)
unfolding see_startup
see_startup-AreListed base s st h = elim (Bool-cases (is_seen st.seen (key_of s))) [
  | inl e ↦ rw e h
  | inr e ↦ rw e (snoc-AreListed base s st h)
]

see_startups-lists :
    (base : Text) (ss : List Startup) (st : State)
    → AreListed base st
    → All (λ s. key_of s ≢ base) ss
    → All (λ s. is_listed (key_of s) (see_startups ss st).out ≡ true) ss
unfolding see_startups
see_startups-lists base [] st h k = tt
see_startups-lists base (s ∷ ss) st h k = (
  see_startups-keeps ss (see_startup s st) (key_of s) (see_startup-lists base s st h k.0),
  see_startups-lists base ss (see_startup s st) (see_startup-AreListed base s st h) k.1,
)

see_more-out : (m : Text) (st : State) → (see_more m st).out ≡ st.out
unfolding see_more
see_more-out m st = elim (Bool-cases (is_seen st.seen m)) [ inl e ↦ rw e refl | inr e ↦ rw e refl ]

see_all_more-out : (ms : List Text) (st : State) → (see_all_more ms st).out ≡ st.out
unfolding see_all_more
see_all_more-out [] st = refl
see_all_more-out (m ∷ ms) st = see_all_more-out ms (see_more m st) ∙ see_more-out m st

read_page-lists :
    (env : Env) (body base : Text) (st : State) (key : Text)
    → is_listed key (see_startups (env.portfolio body base).startups st).out ≡ true
    → is_listed key (read_page env body base st).out ≡ true
unfolding read_page
read_page-lists env body base st key h =
    let pp = env.portfolio body base in
    rw (see_all_more-out pp.more (see_startups pp.startups st)) h

read_page-keeps :
    (env : Env) (body base : Text) (st : State) (key : Text)
    → is_listed key st.out ≡ true
    → is_listed key (read_page env body base st).out ≡ true
read_page-keeps env body base st key h =
    read_page-lists env body base st key
      (see_startups-keeps (env.portfolio body base).startups st key h)

abbrev Keeps : Text → (Text → Text → State → List Startup × List Text) → Type 0
Keeps key again =
    (body base : Text) (st : State)
    → is_listed key st.out ≡ true
    → is_listed key (again body base st).0 ≡ true

with_load-first :
    (key next : Text) (r : List Startup × List Text)
    → is_listed key r.0 ≡ true
    → is_listed key (with_load next r).0 ≡ true
with_load-first key next (out, loads) h = h

go_on-Keeps :
    (env : Env) (again : Text → Text → State → List Startup × List Text) (queue : List Text)
    (st : State) (key : Text)
    → Keeps key again
    → is_listed key st.out ≡ true
    → is_listed key (go_on env again queue st).0 ≡ true
unfolding go_on
go_on-Keeps env again [] st key k h = h
go_on-Keeps env again (next ∷ queue) st key k h = elim (Option-cases (env.page next)) [
  | inl e ↦ rw (e, go_on) h
  | inr (body, e) ↦
      rw (e, go_on)
        (with_load-first key next (again body next (record st { queue = queue }))
          (k body next (record st { queue = queue }) h))
]

crawl-Keeps : (env : Env) (left : ℕ) (key : Text) → Keeps key (crawl env left)
unfolding crawl
crawl-Keeps env zero key body base st h = read_page-keeps env body base st key h
crawl-Keeps env (suc left) key body base st h =
    let read = read_page env body base st in
    go_on-Keeps env (crawl env left) read.queue read key (crawl-Keeps env left key)
      (read_page-keeps env body base st key h)

-- What a page lists, its round of the loop lists, and so does what follows.
crawl-lists :
    (env : Env) (left : ℕ) (body base : Text) (st : State) (key : Text)
    → is_listed key (read_page env body base st).out ≡ true
    → is_listed key (crawl env left body base st).0 ≡ true
unfolding crawl
crawl-lists env zero body base st key h = h
crawl-lists env (suc left) body base st key h =
    let read = read_page env body base st in
    go_on-Keeps env (crawl env left) read.queue read key (crawl-Keeps env left key) h

start-AreListed : (base : Text) → AreListed base (start base)
unfolding any_where
start-AreListed base key h = inl ((text_eq_iff key base).0 (ground arith))

-- Every startup of a portfolio's first page is listed, by its website and page, if these are not together
-- the portfolio's own address.
pub portfolio_startups-lists :
    (env : Env) (body base : Text)
    → All (λ s. key_of s ≢ base) (env.portfolio body base).startups
    → All
        (λ s. is_listed (key_of s) (portfolio_startups env body base).0 ≡ true)
        (env.portfolio body base).startups
unfolding portfolio_startups
portfolio_startups-lists env body base k =
    let pp = env.portfolio body base in
    All-weaken pp.startups
      (λ s h.
        crawl-lists env 5 body base (start base) (key_of s)
          (read_page-lists env body base (start base) (key_of s) h))
      (see_startups-lists base pp.startups (start base) (start-AreListed base) k)
