-- ===== src/Db/InstallId.antt =====
-- src/db/sqlite-telemetry-repository.ts
pub mod Laws
use notify_hub.Base.{Option, none, some, List, [], ◌∷◌, ◌++◌, Text, lit, ◌==◌, if◌then◌else◌}
use notify_hub.Db.{Db, TelemetryRow}

abbrev pub singleton_id : Text
singleton_id = lit "singleton"

unfoldable pub find_install_id : List TelemetryRow → Option Text
find_install_id [] = none
find_install_id (row ∷ rows) =
    if row.id == singleton_id then some row.install_id else find_install_id rows

-- `uuid` is the value that `randomUUID()` would give.
unfoldable pub get_or_create_install_id : Text → Db → Text × Db
unfolding find_install_id
get_or_create_install_id uuid db = elim (find_install_id db.telemetry) [
  | some install_id ↦ (install_id, db)
  | none ↦ (
    uuid,
    record db { telemetry = db.telemetry ++ record { id = singleton_id; install_id = uuid } ∷ [] },
  )
]
