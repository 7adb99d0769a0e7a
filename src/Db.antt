-- ===== src/Db.antt =====
-- src/db: the rows of the SQLite tables and the statements on them. A `created_at` column holds the
-- ISO-8601 text of a time; it is modelled by the time, whose order is the order of the texts. The
-- `config` column holds the JSON text of an object; it is modelled by the object.
pub mod Channels
pub mod Profiles
pub mod InstallId
pub mod Seed
pub mod Integrity
use notify_hub.Base.{ℕ, Bool, ◌&&◌, ◌||◌, Option, List, Text, ltb, eqb, if◌then◌else◌, []}
use notify_hub.Base.Map.{Map}
use notify_hub.Base.Sort.{text_le}

pub record ChannelRow : Type 0 where
  pub id : Text
  pub label : Text
  pub type : Text
  pub enabled : ℕ
  pub config : Map Text
  pub created_at : ℕ

pub record ProfileRow : Type 0 where
  pub id : Text
  pub name : Text
  pub token : Text
  pub created_at : ℕ

pub record ProfileChannel : Type 0 where
  pub profile_id : Text
  pub channel_id : Text

pub record TelemetryRow : Type 0 where
  pub id : Text
  pub install_id : Text

pub record Db : Type 0 where
  pub channels : List ChannelRow
  pub profiles : List ProfileRow
  pub profile_channels : List ProfileChannel
  pub telemetry : List TelemetryRow

-- What SCHEMA_SQL leaves in a file that had no tables.
abbrev pub empty_db : Db
empty_db = record { channels = []; profiles = []; profile_channels = []; telemetry = [] }

-- `ORDER BY created_at, id`
unfoldable pub created_before : ℕ → Text → ℕ → Text → Bool
unfolding text_le
created_before t i u j = ltb t u || (eqb t u && text_le i j)
