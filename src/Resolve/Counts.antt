-- ===== src/Resolve/Counts.antt =====
-- internal/pipeline/resolve.go: how many rows of events and of people the transaction of an event adds.
pub mod Transaction
use speakertrail.Common.{
  ℕ, ◌+◌, ◌≡◌, refl, Bool, true, false, Option, none, some, List, [], ◌∷◌, Text, bytes, inl, inr,
  arith, length, length-snoc, length-set_where, is_empty, text_eq, Bool-cases, Option-cases,
  if◌then◌else◌,
}
use speakertrail.Urls.{Parser}
use speakertrail.Resolve.Titles.{Unicode, normalise_org, normalise_title}
use speakertrail.Resolve.Names.{profile_of, parse_affiliation}
use speakertrail.Resolve.Tables.{PersonRow, Seen, Db, done, Tx, ◌>>=◌, pure, exec}
use speakertrail.Resolve.Orgs.{upsert_organisation, kind_for_url, upsert_named, insert_organisation}
use speakertrail.Resolve.People.{
  Person, Env, find_person, insert_person, set_headline, find_or_insert, add_appearance,
  add_affiliation, name_founder, affiliate, affiliate_named, store_profile, store_profiles,
  store_person, resolve_person,
}
use speakertrail.Resolve.Events.{
  Organiser, Event, Verdict, Placed, find_event, new_row, merged, insert_row, update_row, place,
  place_event,
}
use speakertrail.Resolve.Check.{
  sight, add_organising, set_venue, store_venue, store_organiser, store_organisers, store_one,
  store_people, store_around, resolve_event, Tally, counted, no_people, Resolved, one_if,
}
use speakertrail.Resolve.Frame.{>>=-done}
use speakertrail.Resolve.Found.{write_row-done}

-- How many rows of events and of people there are, or were added.
pub record Rows : Type 0 where
  pub events : ℕ
  pub people : ℕ

-- The tables have as many rows more as `new` has more than `old`.
pub record Gains (old new : Rows) (db db' : Db) : Type 0 where
  pub events : length db'.events + old.events ≡ length db.events + new.events
  pub people : length db'.people + old.people ≡ length db.people + new.people

-- The transaction adds rows, counted from `old`, by what it answers, if it commits.
abbrev pub Counts {ℓ} : {A : Type ℓ} → Rows → (A → Rows) → Tx A → Type ℓ
Counts {A = A} old new m =
    (db : Db) (a : A) (db' : Db) → m db ≡ done a db' → Gains old (new a) db db'

-- It adds no row, wherever the count stands.
abbrev pub IsQuiet {ℓ} : {A : Type ℓ} → Tx A → Type ℓ
IsQuiet m = (n : Rows) → Counts n (λ _. n) m

pub Gains-same :
    (n : Rows) (db db' : Db) → db'.events ≡ db.events → db'.people ≡ db.people → Gains n n db db'
Gains-same n db db' e p = record { events = rw e refl; people = rw p refl }

pub Counts-bind {ℓ κ} :
    {A : Type ℓ} {B : Type κ} (m : Tx A) (f : A → Tx B) (old : Rows) (mid : A → Rows)
    (new : B → Rows)
    → Counts old mid m
    → ((a : A) → Counts (mid a) new (f a))
    → Counts old new (m >>= f)
Counts-bind m f old mid new g h db b db' e =
    let (a, db₁, p, q) = >>=-done m f db b db' e in
    let first = g db a db₁ p in
    let then_ = h a db₁ b db' q in
    record {
      events = omega (arith, first.events, then_.events);
      people = omega (arith, first.people, then_.people);
    }

pub Counts-pure {ℓ} : {A : Type ℓ} (new : A → Rows) (a : A) → Counts (new a) new (pure a)
Counts-pure new a db b db' e =
    let k : db ≡ db' = cc in
    let l : a ≡ b = cc in rw (← k, ← l) (Gains-same (new a) db db refl refl)

pub IsQuiet-bind {ℓ κ} :
    {A : Type ℓ} {B : Type κ} (m : Tx A) (f : A → Tx B)
    → IsQuiet m
    → ((a : A) → IsQuiet (f a))
    → IsQuiet (m >>= f)
IsQuiet-bind m f g h n = Counts-bind m f n (λ _. n) (λ _. n) (g n) (λ a. h a n)

pub IsQuiet-exec : (f : Db → Db) → ((n : Rows) (db : Db) → Gains n n db (f db)) → IsQuiet (exec f)
IsQuiet-exec f g n db a db' e = let k : f db ≡ db' = cc in rw (← k) (g n db)

pub IsQuiet-pure {ℓ} : {A : Type ℓ} (a : A) → IsQuiet (pure a)
IsQuiet-pure a n = Counts-pure (λ _. n) a

upsert_named-IsQuiet :
    (parse : Parser) (name norm kind website city : Text)
    → IsQuiet (upsert_named parse name norm kind website city)
unfolding upsert_named insert_organisation
upsert_named-IsQuiet parse name norm kind website city n db a db' h =
    Gains-same n db db' (ground arith) (ground arith)

pub upsert_organisation-IsQuiet :
    (u : Unicode) (parse : Parser) (name kind website city : Text)
    → IsQuiet (upsert_organisation u parse name kind website city)
unfolding upsert_organisation
upsert_organisation-IsQuiet u parse name kind website city n db a db' h =
    elim (Bool-cases (is_empty (normalise_org u name))) [
      | inl e ↦ absurd (ground arith)
      | inr e ↦
          upsert_named-IsQuiet parse name (normalise_org u name) kind website city n db a db'
            (ground arith)
    ]

pub find_or_insert-Counts :
    (env : Env) (event : ℕ) (norm org city : Text) (p : Person) (now k n : ℕ)
    → Counts
        (record { events = k; people = n })
        (λ found. record { events = k; people = n + one_if found.1 })
        (find_or_insert env event norm org city p now)
unfolding find_or_insert insert_person set_headline
find_or_insert-Counts env event norm org city p now k n db (id, is_new) db' h =
    elim (Option-cases (find_person env.appearance_order event norm org db)) [
      | inl e ↦
          let l : insert_person env norm city p now db ≡ db' = ground arith in
          let m : true ≡ is_new = ground arith in
          rw (← l, ← m) (record { events = refl; people = omega (arith, length-snoc db.people) })
      | inr (id, e) ↦
          let l : (if is_empty p.affiliation then db else set_headline id p now db) ≡ db' =
            ground arith in
          let m : false ≡ is_new = ground arith in rw (← l, ← m) (headline id)
    ]
  where
    headline :
        (id : ℕ)
        → Gains
            (record { events = k; people = n })
            (record { events = k; people = n + 0 })
            db
            (if is_empty p.affiliation then db else set_headline id p now db)
    headline id = elim (Bool-cases (is_empty p.affiliation)) [
      | inl e ↦ rw e (record { events = refl; people = omega arith })
      | inr e ↦
          rw e (record { events = refl; people = omega (arith, length-set_where {A = PersonRow}) })
    ]

pub affiliate_named-IsQuiet :
    (env : Env) (id : ℕ) (aff : Text × Text) → IsQuiet (affiliate_named env id aff)
unfolding affiliate_named affiliate add_affiliation name_founder
affiliate_named-IsQuiet env id (org, role) = elim (Bool-cases (is_empty org)) [
  | inl e ↦ rw e (IsQuiet-pure tt)
  | inr e ↦ rw e (
      IsQuiet-bind _ _
        (upsert_organisation-IsQuiet env.unicode env.parse org (bytes "company") [] [])
        (λ found.
          IsQuiet-bind _ _ (IsQuiet-exec _ (λ n db. Gains-same n db _ refl refl))
            (λ _. IsQuiet-exec _ founder)))
]
  where
    founder : (n : Rows) (db : Db) → Gains n n db (name_founder id role db)
    founder n db = elim (Bool-cases (text_eq role (bytes "founder"))) [
      | inl e ↦
          rw e (record { events = refl; people = omega (arith, length-set_where {A = PersonRow}) })
      | inr e ↦ rw e (Gains-same n db db refl refl)
    ]

pub store_profiles-same :
    (env : Env) (id : ℕ) (url : Text) (now : ℕ) (links : List Text) (n : Rows) (db : Db)
    → Gains n n db (store_profiles env id url now links db)
unfolding store_profiles store_profile
store_profiles-same env id url now [] n db = Gains-same n db db refl refl
store_profiles-same env id url now (l ∷ ls) n db =
    let first = store_profile env id url now (profile_of env.parse env.patterns l) db in
    let rest = store_profiles-same env id url now ls n first in
    let e : first.events ≡ db.events = ground arith in
    let p : first.people ≡ db.people = ground arith in
    record { events = rw e at rest.events; people = rw p at rest.people }
