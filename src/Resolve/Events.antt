-- ===== src/Resolve/Events.antt =====
-- internal/pipeline/resolve.go: findEvent, and what resolveEvent does to the row of the event.
use speakertrail.Common.{
  Order, ℕ, ◌+◌, Bool, true, false, not, ◌&&◌, Option, none, some, List, [], ◌∷◌, ◌++◌, Text, bytes,
  text_eq, is_empty, length, ltb, leb, ◌==◌, if◌then◌else◌, set_where, first_where, any_where,
  or_else,
}
use speakertrail.Resolve.Titles.{normalise_title, same_title}
use speakertrail.Resolve.Names.{is_one_of}
use speakertrail.Resolve.Tables.{EventRow, Db, Refused, Stored, Tx}
use speakertrail.Resolve.People.{Person, Env}

-- extract.Organiser
pub record Organiser : Type 0 where
  pub name : Text
  pub url : Text

-- extract.Event, as far as the resolver reads it. The end is `none` where it is not known.
pub record Event : Type 0 where
  pub title : Text
  pub description : Text
  pub start : ℕ
  pub end : Option ℕ
  pub venue : Text
  pub address : Text
  pub city : Text
  pub format : Text
  pub kind : Text
  pub url : Text
  pub price : Text
  pub organisers : List Organiser
  pub people : List Person

abbrev pub has_address : Text → EventRow → Bool
has_address url r = text_eq r.canonical_url url

-- The row starts at the time and has the title, or nearly.
abbrev pub is_like : Text → ℕ → EventRow → Bool
is_like norm start r = r.starts_at == start && same_title r.normalised_title norm

-- The loop over the rows that start at the time, in the order in which the database reads them.
unfoldable pub by_title : Order EventRow → Text → ℕ → List EventRow → Option EventRow
unfolding first_where same_title
by_title order norm start rows = first_where (is_like norm start) (order.read rows)

-- findEvent. At most one row has an address that is not empty.
unfoldable pub find_event : Order EventRow → Text → Text → ℕ → List EventRow → Option EventRow
unfolding by_title first_where text_eq
find_event order url norm start rows =
    if is_empty url
    then by_title order norm start rows
    else or_else (first_where (has_address url) rows) (by_title order norm start rows)

-- orDefault
unfoldable pub or_default : Text → Text → Text
or_default s def = if is_empty s then def else s

abbrev pub formats : List Text
formats = bytes "in_person" ∷ bytes "online" ∷ bytes "hybrid" ∷ []

abbrev pub event_types : List Text
event_types =
    bytes "pitch"
    ∷ bytes "talk"
    ∷ bytes "panel"
    ∷ bytes "meetup"
    ∷ bytes "workshop"
    ∷ bytes "conference"
    ∷ bytes "sport"
    ∷ bytes "other"
    ∷ []

unfoldable pub ends_in_time : ℕ → Option ℕ → Bool
ends_in_time start none = true
ends_in_time start (some end) = leb start end

-- The CHECKs of the table events.
unfoldable pub meets_checks : EventRow → Bool
unfolding is_one_of ends_in_time
meets_checks r =
    is_one_of r.format formats
    && (is_one_of r.kind event_types && ends_in_time r.starts_at r.ends_at)

-- Another row has the address: events_canonical_url_idx.
abbrev pub takes_address : EventRow → EventRow → Bool
takes_address r q =
    not (q.id == r.id) && (not (is_empty r.canonical_url) && has_address r.canonical_url q)

unfoldable pub is_taken : EventRow → List EventRow → Bool
unfolding any_where text_eq
is_taken r rows = any_where (takes_address r) rows

abbrev pub is_event : ℕ → EventRow → Bool
is_event id r = r.id == id

-- What Fit says of the event: kept, and the reason.
abbrev pub Verdict : Type 0
Verdict = Bool × Text

unfoldable pub fit_word : Bool → Text
fit_word kept = if kept then bytes "kept" else bytes "dropped"

unfoldable pub new_row : ℕ → Event → Text → Verdict → ℕ → EventRow
unfolding or_default fit_word
new_row id e norm v now = record {
  id = id;
  title = e.title;
  normalised_title = norm;
  starts_at = e.start;
  ends_at = e.end;
  address = e.address;
  city = e.city;
  format = or_default e.format (bytes "in_person");
  kind = or_default e.kind (bytes "other");
  canonical_url = e.url;
  price = e.price;
  fit = fit_word v.0;
  fit_reason = v.1;
  fit_manual = false;
  description = e.description;
  venue_id = none;
  people_read_at = none;
  created_at = now;
  updated_at = now;
}

-- CASE WHEN new = '' THEN old ELSE new END
abbrev pub or_old : Text → Text → Text
or_old new old = if is_empty new then old else new

abbrev pub or_old_end : Option ℕ → Option ℕ → Option ℕ
or_old_end none old = old
or_old_end (some e) old = some e

-- The row after the UPDATE.
unfoldable pub merged : Event → Text → Verdict → ℕ → EventRow → EventRow
unfolding fit_word text_eq
merged e norm v now r = record r {
  title = e.title;
  normalised_title = norm;
  starts_at = e.start;
  ends_at = or_old_end e.end r.ends_at;
  address = or_old e.address r.address;
  city = or_old e.city r.city;
  format = or_old e.format r.format;
  kind = if text_eq e.kind (bytes "other") then r.kind else e.kind;
  canonical_url = if is_empty r.canonical_url then e.url else r.canonical_url;
  price = or_old e.price r.price;
  description =
      if ltb (length r.description) (length e.description) then e.description else r.description;
  fit = if r.fit_manual then r.fit else fit_word v.0;
  fit_reason = if r.fit_manual then r.fit_reason else v.1;
  updated_at = now;
}

-- A statement that writes a row, which the constraints of the table may refuse.
unfoldable pub write_row {ℓ} : {A : Type ℓ} → EventRow → A → (Db → Db) → Tx A
unfolding meets_checks is_taken
write_row r a write db =
    if not (meets_checks r)
    then Stored.refused Refused.check_violated
    else if is_taken r db.events
    then Stored.refused Refused.address_taken
    else Stored.done a (write db)

unfoldable pub insert_row : EventRow → Db → Db
insert_row r db = record db { events = db.events ++ r ∷ []; next_event = db.next_event + 1 }

unfoldable pub update_row : EventRow → Db → Db
unfolding set_where
update_row r db = record db { events = set_where (is_event r.id) (λ _. r) db.events }

-- What became of the event's row: its id, whether it is new and whether the event is kept.
pub record Placed : Type 0 where
  pub id : ℕ
  pub is_new : Bool
  pub kept : Bool

unfoldable pub place : Event → Text → Verdict → ℕ → Option EventRow → Tx Placed
unfolding new_row merged write_row insert_row update_row text_eq
place e norm v now none db =
    let r = new_row db.next_event e norm v now in
    write_row r (record { id = db.next_event; is_new = true; kept = v.0 }) (insert_row r) db
place e norm v now (some old) db =
    let r = merged e norm v now old in
    write_row r (record { id = old.id; is_new = false; kept = text_eq r.fit (bytes "kept") })
      (update_row r) db

-- resolveEvent, up to the sighting of the event.
unfoldable pub place_event : Env → Verdict → Event → ℕ → Tx Placed
unfolding place find_event normalise_title
place_event env v e now db =
    let norm = normalise_title env.unicode e.title in
    place e norm v now (find_event env.event_order e.url norm e.start db.events) db
