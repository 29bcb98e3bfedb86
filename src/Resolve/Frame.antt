-- ===== src/Resolve/Frame.antt =====
-- internal/pipeline/resolve.go: what the statements after the event's row leave as it is. They only add
-- to the tables, and fill what is empty.
use mathlib.Core.List.{append-nil, append_assoc}
use speakertrail.Common.{ℕ, ◌≡◌, refl, sym, ap, ◌∙◌, Bool, true, List, [], ◌++◌, Text, any_where}
use speakertrail.Resolve.Tables.{
  EventRow, PersonRow, AppearanceRow, Db, Stored, done, refused, Tx, ◌>>=◌, pure, exec,
}
use speakertrail.Resolve.People.{is_named}

-- A test of the columns that findEvent reads, and of the id.
abbrev pub Columns : Type 0
Columns = ℕ → Text → Text → ℕ → Bool

abbrev pub reads : Columns → EventRow → Bool
reads q r = q r.id r.canonical_url r.normalised_title r.starts_at

-- The tables have rows with the same values in these columns.
abbrev pub FindsAs : List EventRow → List EventRow → Type 0
FindsAs old new = (q : Columns) → any_where (reads q) new ≡ any_where (reads q) old

abbrev pub KeepsNames : List PersonRow → List PersonRow → Type 0
KeepsNames old new =
    (id : ℕ) (norm : Text)
    → any_where (is_named id norm) old ≡ true
    → any_where (is_named id norm) new ≡ true

abbrev pub Extends : List AppearanceRow → List AppearanceRow → Type 0
Extends old new = (more : List AppearanceRow) × (new ≡ old ++ more)

pub record Grows (old new : Db) : Type 0 where
  pub events : FindsAs old.events new.events
  pub names : KeepsNames old.people new.people
  pub appearances : Extends old.appearances new.appearances

pub Grows-trans : (a b c : Db) → Grows a b → Grows b c → Grows a c
Grows-trans a b c g h = record {
  events = λ q. h.events q ∙ g.events q;
  names = λ id norm k. h.names id norm (g.names id norm k);
  appearances =
      let (xs, e) = g.appearances in
      let (ys, f) = h.appearances in
      (xs ++ ys, f ∙ ap (λ (l : List AppearanceRow). l ++ ys) e ∙ append_assoc a.appearances xs ys);
}

-- Nothing that matters changes.
pub Grows-same :
    (a b : Db)
    → b.events ≡ a.events
    → b.people ≡ a.people
    → b.appearances ≡ a.appearances
    → Grows a b
Grows-same a b e p q = record {
  events = λ q. ap (any_where (reads q)) e;
  names = λ id norm k. rw p k;
  appearances = ([], q ∙ sym (append-nil a.appearances));
}

-- The tables grow from before a transaction to after it, if it commits.
abbrev pub Adds {ℓ} : {A : Type ℓ} → Tx A → Type ℓ
Adds {A = A} m = (db : Db) (a : A) (db' : Db) → m db ≡ done a db' → Grows db db'

pub >>=-done {ℓ κ} :
    {A : Type ℓ} {B : Type κ} (m : Tx A) (f : A → Tx B) (db : Db) (b : B) (db' : Db)
    → (m >>= f) db ≡ done b db'
    → (a : A) × (mid : Db) × (m db ≡ done a mid) × (f a mid ≡ done b db')
>>=-done {A = A} {B = B} m f db b db' h = split (m db) refl
  where
    split :
        (s : Stored A)
        → m db ≡ s
        → (a : A) × (mid : Db) × (m db ≡ done a mid) × (f a mid ≡ done b db')
    split (done a mid) e = (a, mid, e, rw (e, ◌>>=◌) at h)
    split (refused w) e = let k : Stored.refused w ≡ done b db' = rw (e, ◌>>=◌) at h in absurd (cc)

pub Adds-bind {ℓ κ} :
    {A : Type ℓ} {B : Type κ} (m : Tx A) (f : A → Tx B)
    → Adds m
    → ((a : A) → Adds (f a))
    → Adds (m >>= f)
Adds-bind m f g h db b db' e =
    let (a, mid, p, q) = >>=-done m f db b db' e in
    Grows-trans db mid db' (g db a mid p) (h a mid b db' q)

pub Adds-exec : (f : Db → Db) → ((db : Db) → Grows db (f db)) → Adds (exec f)
Adds-exec f g db a db' e = let k : f db ≡ db' = cc in rw (← k) (g db)

pub Adds-pure {ℓ} : {A : Type ℓ} (a : A) → Adds (pure a)
Adds-pure a db b db' e = let k : db ≡ db' = cc in rw (← k) (Grows-same db db refl refl refl)
