-- ===== src/Db/InstallId/Laws.antt =====
-- Reading and making the install id: src/db/sqlite-telemetry-repository.ts
use notify_hub.Base.{
  none, some, List, [], ◌∷◌, ◌++◌, Text, ==_refl, ◌≡◌, refl, inl, inr, Option-cases, arith,
}
use notify_hub.Db.{Db, TelemetryRow}
use notify_hub.Db.InstallId.{singleton_id, find_install_id, get_or_create_install_id}

find_install_id-append :
    (rows : List TelemetryRow) (uuid : Text)
    → find_install_id rows ≡ none
    → find_install_id (rows ++ record { id = singleton_id; install_id = uuid } ∷ []) ≡ some uuid
unfolding find_install_id
find_install_id-append [] uuid e = rw (==_refl singleton_id) refl
find_install_id-append (row ∷ rows) uuid e = ground (arith, find_install_id-append rows uuid)

found_id :
    (uuid id : Text) (db : Db)
    → find_install_id db.telemetry ≡ some id
    → get_or_create_install_id uuid db ≡ (id, db)
unfolding get_or_create_install_id
found_id uuid id db e = rw (e, get_or_create_install_id) refl

abbrev with_id : Text → Db → Db
with_id uuid db = record db {
  telemetry = db.telemetry ++ record { id = singleton_id; install_id = uuid } ∷ [];
}

made_id :
    (uuid : Text) (db : Db)
    → find_install_id db.telemetry ≡ none
    → get_or_create_install_id uuid db ≡ (uuid, with_id uuid db)
unfolding get_or_create_install_id
made_id uuid db e = rw (e, get_or_create_install_id) refl

-- Once there is an install id, every later call gives it again and writes nothing, whatever id it
-- would have drawn.
pub get_or_create_install_id_lem :
    (uuid later : Text) (db : Db)
    → get_or_create_install_id later (get_or_create_install_id uuid db).1
      ≡ get_or_create_install_id uuid db
get_or_create_install_id_lem uuid later db = elim (Option-cases (find_install_id db.telemetry)) [
  | inr (id, found) ↦ rw (found_id uuid id db found) (found_id later id db found)
  | inl missing ↦
      rw (made_id uuid db missing)
        (found_id later uuid (with_id uuid db) (find_install_id-append db.telemetry uuid missing))
]
