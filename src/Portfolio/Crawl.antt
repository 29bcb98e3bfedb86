-- ===== src/Portfolio/Crawl.antt =====
-- internal/pipeline/portfolio.go: which startups a check of a portfolio lists, and which pages it loads.
use mathlib.Core.List.{append-nil, append_assoc}
use speakertrail.Common.{
  ℕ, zero, suc, ◌≤◌, true, false, ◌≡◌, ◌≢◌, refl, ap, inl, inr, List, [], ◌∷◌, ◌++◌, map, Text,
  text_eq_refl, length, any_where, All, All-weaken, All-append, Distinct, Distinct-snoc, arith,
  Bool-cases, Option-cases,
}
use speakertrail.Portfolio.{
  Startup, Env, State, is_seen, key_of, see_startup, see_startups, see_more, see_all_more,
  read_page, with_load, go_on, crawl, start, portfolio_startups,
}

-- Every one of them is seen.
abbrev AreSeen : List Text → List Text → Type 0
AreSeen seen xs = All (λ x. is_seen seen x ≡ true) xs

AreSeen-more :
    (seen : List Text) (k : Text) (xs : List Text) → AreSeen seen xs → AreSeen (k ∷ seen) xs
unfolding any_where
AreSeen-more seen k xs h = All-weaken xs (λ x e. ground arith) h

-- What is not seen is none of those that are.
unlike : (seen : List Text) (k x : Text) → is_seen seen k ≡ false → is_seen seen x ≡ true → x ≢ k
unlike seen k x e s same = ground arith

unseen-new :
    (seen : List Text) (k : Text) (xs : List Text)
    → is_seen seen k ≡ false
    → AreSeen seen xs
    → All (λ x. x ≢ k) xs
unseen-new seen k xs e h = All-weaken xs (λ x. unlike seen k x e) h

-- The pages asked for before and those queued are different and seen, and so are the startups listed.
record IsOrderly (asked : List Text) (st : State) : Type 0 where
  pages : Distinct (asked ++ st.queue)
  pages_seen : AreSeen st.seen (asked ++ st.queue)
  listed : Distinct (map key_of st.out)
  listed_seen : AreSeen st.seen (map key_of st.out)

map-snoc {ℓ κ} :
    {A : Type ℓ} {B : Type κ} (f : A → B) (xs : List A) (x : A)
    → map f (xs ++ x ∷ []) ≡ map f xs ++ f x ∷ []
map-snoc f [] x = refl
map-snoc f (y ∷ xs) x = ap (λ l. f y ∷ l) (map-snoc f xs x)

AreSeen-snoc :
    (seen : List Text) (k : Text) (xs : List Text)
    → AreSeen seen xs
    → AreSeen (k ∷ seen) (xs ++ k ∷ [])
unfolding any_where
AreSeen-snoc seen k xs h =
    All-append (λ x. is_seen (k ∷ seen) x ≡ true) xs (k ∷ []) (AreSeen-more seen k xs h)
      (rw (text_eq_refl k) refl, tt)

see_startup-IsOrderly :
    (asked : List Text) (s : Startup) (st : State)
    → IsOrderly asked st
    → IsOrderly asked (see_startup s st)
unfolding see_startup
see_startup-IsOrderly asked s st h = elim (Bool-cases (is_seen st.seen (key_of s))) [
  | inl e ↦ rw e h
  | inr e ↦ rw e (record {
    pages = h.pages;
    pages_seen = AreSeen-more st.seen (key_of s) (asked ++ st.queue) h.pages_seen;
    listed = rw (map-snoc key_of st.out s) (
        Distinct-snoc (map key_of st.out) (key_of s)
          (unseen-new st.seen (key_of s) (map key_of st.out) e h.listed_seen) h.listed);
    listed_seen =
        rw (map-snoc key_of st.out s)
          (AreSeen-snoc st.seen (key_of s) (map key_of st.out) h.listed_seen);
  })
]

see_startups-IsOrderly :
    (asked : List Text) (ss : List Startup) (st : State)
    → IsOrderly asked st
    → IsOrderly asked (see_startups ss st)
unfolding see_startups
see_startups-IsOrderly asked [] st h = h
see_startups-IsOrderly asked (s ∷ ss) st h =
    see_startups-IsOrderly asked ss (see_startup s st) (see_startup-IsOrderly asked s st h)

see_more-IsOrderly :
    (asked : List Text) (m : Text) (st : State)
    → IsOrderly asked st
    → IsOrderly asked (see_more m st)
unfolding see_more
see_more-IsOrderly asked m st h = elim (Bool-cases (is_seen st.seen m)) [
  | inl e ↦ rw e h
  | inr e ↦ rw e (record {
    pages = rw (← append_assoc asked st.queue (m ∷ [])) (
        Distinct-snoc (asked ++ st.queue) m
          (unseen-new st.seen m (asked ++ st.queue) e h.pages_seen) h.pages);
    pages_seen =
        rw (← append_assoc asked st.queue (m ∷ []))
          (AreSeen-snoc st.seen m (asked ++ st.queue) h.pages_seen);
    listed = h.listed;
    listed_seen = AreSeen-more st.seen m (map key_of st.out) h.listed_seen;
  })
]

see_all_more-IsOrderly :
    (asked : List Text) (ms : List Text) (st : State)
    → IsOrderly asked st
    → IsOrderly asked (see_all_more ms st)
unfolding see_all_more
see_all_more-IsOrderly asked [] st h = h
see_all_more-IsOrderly asked (m ∷ ms) st h =
    see_all_more-IsOrderly asked ms (see_more m st) (see_more-IsOrderly asked m st h)

read_page-IsOrderly :
    (env : Env) (body base : Text) (asked : List Text) (st : State)
    → IsOrderly asked st
    → IsOrderly asked (read_page env body base st)
unfolding read_page
read_page-IsOrderly env body base asked st h =
    let pp = env.portfolio body base in
    see_all_more-IsOrderly asked pp.more (see_startups pp.startups st)
      (see_startups-IsOrderly asked pp.startups st h)

All-prefix {ℓ κ} : {A : Type ℓ} (P : A → Type κ) (xs ys : List A) → All P (xs ++ ys) → All P xs
All-prefix P [] ys h = tt
All-prefix P (x ∷ xs) ys h = (h.0, All-prefix P xs ys h.1)

Distinct-prefix {ℓ} : {A : Type ℓ} (xs ys : List A) → Distinct (xs ++ ys) → Distinct xs
Distinct-prefix [] ys d = tt
Distinct-prefix (x ∷ xs) ys d = (All-prefix (λ y. x ≢ y) xs ys d.0, Distinct-prefix xs ys d.1)

-- No startup twice, no page twice, and no more pages than allowed.
abbrev pub IsOnce : List Text → ℕ → List Startup × List Text → Type 0
IsOnce asked left (out, loads) =
    Distinct (map key_of out) × Distinct (asked ++ loads) × (length loads ≤ left)

with_load-IsOnce :
    (asked : List Text) (left : ℕ) (next : Text) (r : List Startup × List Text)
    → IsOnce (asked ++ next ∷ []) left r
    → IsOnce asked (suc left) (with_load next r)
with_load-IsOnce asked left next (out, loads) (d, p, l) =
    (d, rw (← append_assoc asked (next ∷ []) loads) p, omega (arith, l))

go_on-IsOnce :
    (env : Env) (again : Text → Text → State → List Startup × List Text) (asked : List Text)
    (left : ℕ) (queue : List Text) (st : State)
    → ((next body : Text) (st' : State)
        → IsOrderly (asked ++ next ∷ []) st'
        → IsOnce (asked ++ next ∷ []) left (again body next st'))
    → st.queue ≡ queue
    → IsOrderly asked st
    → IsOnce asked (suc left) (go_on env again queue st)
unfolding go_on
go_on-IsOnce env again asked left [] st k q h =
    (h.listed, rw (append-nil asked) (Distinct-prefix asked st.queue h.pages), omega arith)
go_on-IsOnce env again asked left (next ∷ queue) st k q h =
    let pages : Distinct ((asked ++ next ∷ []) ++ queue) =
      rw (append_assoc asked (next ∷ []) queue, ← q) h.pages in
    elim (Option-cases (env.page next)) [
      | inl e ↦
          rw (e, go_on) (h.listed, Distinct-prefix (asked ++ next ∷ []) queue pages, omega arith)
      | inr (body, e) ↦
          rw (e, go_on)
            (with_load-IsOnce asked left next (again body next (record st { queue = queue })) (
              k next body (record st { queue = queue })
                (record {
                  pages = pages;
                  pages_seen = rw (append_assoc asked (next ∷ []) queue, ← q) h.pages_seen;
                  listed = h.listed;
                  listed_seen = h.listed_seen;
                })))
    ]

crawl-IsOnce :
    (env : Env) (left : ℕ) (body base : Text) (asked : List Text) (st : State)
    → IsOrderly asked st
    → IsOnce asked left (crawl env left body base st)
unfolding crawl
crawl-IsOnce env zero body base asked st h =
    let h' = read_page-IsOrderly env body base asked st h in
    (
      h'.listed,
      rw (append-nil asked) (Distinct-prefix asked (read_page env body base st).queue h'.pages),
      omega arith,
    )
crawl-IsOnce env (suc left) body base asked st h =
    go_on-IsOnce env (crawl env left) asked left (read_page env body base st).queue
      (read_page env body base st)
      (λ next body' st' o. crawl-IsOnce env left body' next (asked ++ next ∷ []) st' o) refl
      (read_page-IsOrderly env body base asked st h)

start-IsOrderly : (base : Text) → IsOrderly (base ∷ []) (start base)
unfolding any_where
start-IsOrderly base = record {
  pages = (tt, tt);
  pages_seen = (rw (text_eq_refl base) refl, tt);
  listed = tt;
  listed_seen = tt;
}

-- A check of a portfolio lists no startup twice, by its website and page, and after the first page asks
-- for at most five more, none of them twice and none of them the first one again.
pub portfolio_startups-IsOnce :
    (env : Env) (body base : Text) → IsOnce (base ∷ []) 5 (portfolio_startups env body base)
unfolding portfolio_startups
portfolio_startups-IsOnce env body base =
    crawl-IsOnce env 5 body base (base ∷ []) (start base) (start-IsOrderly base)
