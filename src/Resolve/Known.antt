-- ===== src/Resolve/Known.antt =====
-- internal/pipeline/resolve.go: whoever was recorded at an event is found there again.
use speakertrail.Common.{
  Order, ℕ, ◌≡◌, refl, ◌∙◌, Bool, true, false, ◌||◌, Option, none, some, List, [], ◌∷◌, Text, bytes,
  inl, inr, any_where, first_where, arith, Bool-cases, Option-cases, any_where-append,
  any_where-weaken, any_where-snoc, any_where-add_unless, first_where-any, first_where-holds,
  text_eq, text_eq_refl, contains, ◌==◌, ==_iff, is_empty, All, All-weaken,
}
use speakertrail.Resolve.Names.{normalise_name}
use speakertrail.Resolve.Titles.{normalise_org}
use speakertrail.Resolve.Tables.{PersonRow, AppearanceRow, Db, done}
use speakertrail.Resolve.People.{
  Person, Env, is_named, appears_as, at_event, candidates, choose, or_first, is_shared, find_person,
  insert_person, find_or_insert, add_appearance, is_appearance, store_person, affiliate_named,
  no_names,
}
use speakertrail.Resolve.Frame.{Grows, >>=-done}
use speakertrail.Resolve.Growth.{find_or_insert-Adds, after_found-Adds}

abbrev pub IsNamed : ℕ → Text → Db → Type 0
IsNamed id norm db = any_where (is_named id norm) db.people ≡ true

-- Somebody with the name has an appearance at the event.
abbrev pub IsKnown : ℕ → Text → Db → Type 0
IsKnown event norm db = any_where (appears_as db.people event norm) db.appearances ≡ true

pub IsKnown-Grows :
    (event : ℕ) (norm : Text) (a b : Db) → Grows a b → IsKnown event norm a → IsKnown event norm b
unfolding appears_as
IsKnown-Grows event norm a b g h =
    let (more, e) = g.appearances in
    let old : any_where (appears_as b.people event norm) a.appearances ≡ true =
      any_where-weaken (appears_as a.people event norm) (appears_as b.people event norm)
        a.appearances (λ x k. ground (arith, g.names x.person_id norm)) h in
    rw e (any_where-append (appears_as b.people event norm) a.appearances more ∙ (rw old refl))

pub at_event-of_known :
    (order : Order AppearanceRow) (event : ℕ) (norm : Text) (db : Db)
    → IsKnown event norm db
    → (id : ℕ) × (at_event order event norm db ≡ some id)
unfolding at_event
at_event-of_known order event norm db h =
    let there = order.same (appears_as db.people event norm) db.appearances ∙ h in
    let (a, e) =
      first_where-any (appears_as db.people event norm) (order.read db.appearances) there in
    (a.person_id, rw (e, at_event) refl)

-- Whom findPerson names has the name.
at_event-IsNamed :
    (order : Order AppearanceRow) (event : ℕ) (norm : Text) (db : Db) (id : ℕ)
    → at_event order event norm db ≡ some id
    → IsNamed id norm db
unfolding at_event appears_as
at_event-IsNamed order event norm db id h =
    elim (Option-cases
      (first_where (appears_as db.people event norm) (order.read db.appearances))) [
        | inl e ↦ absurd (ground arith)
        | inr (a, e) ↦
            let k =
              first_where-holds (appears_as db.people event norm) (order.read db.appearances) a e in
            ground arith
      ]

-- Every candidate has the name.
abbrev AllNamed : List PersonRow → Text → List (ℕ × List Text) → Type 0
AllNamed people norm = All (λ (c : ℕ × List Text). any_where (is_named c.0 norm) people ≡ true)

choose-IsNamed :
    (people : List PersonRow) (norm org : Text) (fallback : Option ℕ) (cs : List (ℕ × List Text))
    (id : ℕ)
    → AllNamed people norm cs
    → ((f : ℕ) → fallback ≡ some f → any_where (is_named f norm) people ≡ true)
    → choose org fallback cs ≡ some id
    → any_where (is_named id norm) people ≡ true
unfolding choose or_first
choose-IsNamed people norm org fallback [] id a k h = k id h
choose-IsNamed people norm org fallback ((cand, names) ∷ cs) id a k h =
    elim (Bool-cases (is_shared org names)) [
      | inl e ↦ let c : cand ≡ id = ground arith in rw (← c) a.0
      | inr e ↦
          choose-IsNamed people norm org _ cs id a.1
            (next fallback (is_empty org || no_names names) k) (ground arith)
    ]
  where
    next :
        (fb : Option ℕ) (b : Bool)
        → ((f : ℕ) → fb ≡ some f → any_where (is_named f norm) people ≡ true)
        → (f : ℕ) → or_first fb b cand ≡ some f
        → any_where (is_named f norm) people ≡ true
    next (some g) b k f e = k f e
    next none true k f e = let c : cand ≡ f = cc in rw (← c) a.0
    next none false k f e = absurd (cc)

-- Each row with the name is one that names its own id.
rows-name_themselves :
    (norm : Text) (ps : List PersonRow)
    → All
        (λ (p : PersonRow).
          text_eq p.normalised_name norm ≡ true → any_where (is_named p.id norm) ps ≡ true)
        ps
unfolding any_where
rows-name_themselves norm [] = tt
rows-name_themselves norm (p ∷ ps) = (
  λ h. ground (arith, ==_iff p.id p.id),
  All-weaken ps (λ q k h. ground (arith, k h)) (rows-name_themselves norm ps),
)

candidates-AllNamed :
    (norm : Text) (db : Db) (people ps : List PersonRow)
    → All
        (λ (p : PersonRow).
          text_eq p.normalised_name norm ≡ true → any_where (is_named p.id norm) people ≡ true)
        ps
    → AllNamed people norm (candidates norm db ps)
unfolding candidates
candidates-AllNamed norm db people [] h = tt
candidates-AllNamed norm db people (p ∷ ps) h = elim (Bool-cases (text_eq p.normalised_name norm)) [
  | inl e ↦ rw e (h.0 e, candidates-AllNamed norm db people ps h.1)
  | inr e ↦ rw e (candidates-AllNamed norm db people ps h.1)
]

-- Whomever the tables offer for a name has the name.
find_person-IsNamed :
    (order : Order AppearanceRow) (event : ℕ) (norm org : Text) (db : Db) (id : ℕ)
    → find_person order event norm org db ≡ some id
    → IsNamed id norm db
unfolding find_person
find_person-IsNamed order event norm org db id h =
    elim (Option-cases (at_event order event norm db)) [
      | inr (a, e) ↦
          let k : a ≡ id = ground arith in at_event-IsNamed order event norm db id (rw (← k) e)
      | inl e ↦ elim (Bool-cases (contains (bytes " ") norm)) [
        | inl c ↦
            choose-IsNamed db.people norm org none (candidates norm db db.people) id
              (candidates-AllNamed norm db db.people db.people
                (rows-name_themselves norm db.people))
              (λ f n. absurd (cc)) (ground arith)
        | inr c ↦ absurd (ground arith)
      ]
    ]

insert_person-IsNamed :
    (env : Env) (norm city : Text) (p : Person) (now : ℕ) (db : Db) (id : ℕ)
    → db.next_person ≡ id
    → IsNamed id norm (insert_person env norm city p now db)
unfolding insert_person
insert_person-IsNamed env norm city p now db id h =
    any_where-snoc (is_named id norm) db.people _
      (ground (arith, ==_iff db.next_person id, text_eq_refl norm))

-- The id that resolvePerson takes belongs to a person with the name.
found-IsNamed :
    (env : Env) (event : ℕ) (norm org city : Text) (p : Person) (now : ℕ) (db db' : Db)
    (found : ℕ × Bool)
    → find_or_insert env event norm org city p now db ≡ done found db'
    → IsNamed found.0 norm db'
unfolding find_or_insert
found-IsNamed env event norm org city p now db db' found h =
    elim (Option-cases (find_person env.appearance_order event norm org db)) [
      | inl e ↦ new (ground arith) (ground arith)
      | inr (id, e) ↦
          let k : id ≡ found.0 = ground arith in
          (find_or_insert-Adds env event norm org city p now db found db' h).names found.0 norm
            (rw (← k) (find_person-IsNamed env.appearance_order event norm org db id e))
    ]
  where
    new :
        db.next_person ≡ found.0
        → insert_person env norm city p now db ≡ db'
        → IsNamed found.0 norm db'
    new k l = rw (← l) (insert_person-IsNamed env norm city p now db found.0 k)

add_appearance-IsKnown :
    (id event : ℕ) (norm role : Text) (db : Db)
    → IsNamed id norm db
    → IsKnown event norm (add_appearance id event role db)
unfolding add_appearance appears_as
add_appearance-IsKnown id event norm role db h =
    any_where-add_unless (is_appearance id event role) (appears_as db.people event norm) _
      db.appearances (ground (arith, ==_iff event event))
      (λ a k. same a (ground (arith, ==_iff a.person_id id)) (ground arith))
  where
    same :
        (a : AppearanceRow)
        → a.person_id ≡ id
        → (a.event_id == event) ≡ true
        → appears_as db.people event norm a ≡ true
    same a i e = rw (e, i) h

-- Whoever resolvePerson stored is known at the event.
pub store_person-IsKnown :
    (env : Env) (event : ℕ) (city : Text) (p : Person) (url : Text) (now : ℕ) (aff : Text × Text)
    (db db' : Db) (found : ℕ × Bool)
    → store_person env event city p url now aff db ≡ done found db'
    → IsKnown event (normalise_name env.unicode env.patterns p.name) db'
unfolding store_person
store_person-IsKnown env event city p url now aff db db' found h =
    let norm = normalise_name env.unicode env.patterns p.name in
    let (f, mid, k, l) =
      >>=-done (find_or_insert env event norm (normalise_org env.unicode aff.0) city p now) _ db
        found db' h in
    IsKnown-Grows event norm _ db' (after_found-Adds env f.0 url now p.links aff f _ found db' l) (
      add_appearance-IsKnown f.0 event norm _ mid
        (found-IsNamed env event norm _ city p now db mid f k))

known-not_new :
    (env : Env) (event : ℕ) (norm org city : Text) (p : Person) (now : ℕ) (db db' : Db)
    (found : ℕ × Bool)
    → IsKnown event norm db
    → find_or_insert env event norm org city p now db ≡ done found db'
    → found.1 ≡ false
unfolding find_or_insert find_person
known-not_new env event norm org city p now db db' found known h =
    let (id, e) = at_event-of_known env.appearance_order event norm db known in ground arith

-- A person who is known at the event is not new.
pub store_person-not_new :
    (env : Env) (event : ℕ) (city : Text) (p : Person) (url : Text) (now : ℕ) (aff : Text × Text)
    (db db' : Db) (found : ℕ × Bool)
    → IsKnown event (normalise_name env.unicode env.patterns p.name) db
    → store_person env event city p url now aff db ≡ done found db'
    → found.1 ≡ false
unfolding store_person
store_person-not_new env event city p url now aff db db' found known h =
    let norm = normalise_name env.unicode env.patterns p.name in
    let (f, mid, k, l) =
      >>=-done (find_or_insert env event norm (normalise_org env.unicode aff.0) city p now) _ db
        found db' h in
    let (u, later, a, b) = >>=-done (affiliate_named env f.0 aff) _ _ found db' l in
    let same : f ≡ found = cc in
    rw (← same) (known-not_new env event norm _ city p now db mid f known k)
