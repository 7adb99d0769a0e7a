-- ===== src/Admin/Service/Valid.antt =====
-- Every entity operation of src/admin/config-service.ts keeps the whole configuration valid.
pub mod Deletes
pub mod Writes
use mathlib.Core.Path.{subst}
use notify_hub.Base.{
  ℕ, true, some, List, map, filter, not, Text, ◌==◌, ==_iff, ◌≡◌, ◌≢◌, refl, sym, ap, ◌∙◌, ◌↔◌, inl,
  inr, All-of_mem, All-mem, Mem, mem-filter, arith, Bool-cases,
}
use notify_hub.Core.{ChannelInstance, ProfileRecord}
use notify_hub.Db.{Db, ProfileChannel}
use notify_hub.Db.Channels
use notify_hub.Db.Profiles
use notify_hub.Db.Integrity.{IsConsistent}
use notify_hub.Db.Profiles.Listing.{Nodup-token-list}
use notify_hub.Channels.Registry.{required_config_by_channel}
use notify_hub.Admin.Validation.Spec.{IsValidChannel, IsEnabledRef}
use notify_hub.Admin.Service.{get_full_config}
use notify_hub.Admin.Service.Writing.{IsValid, Nodup-list}

-- Each listed channel is valid, and each default channel of a listed profile is enabled.
abbrev pub AreChannelsValid : Db → Type 0
AreChannelsValid db =
    (c : ChannelInstance) → Mem c (Channels.list db) → IsValidChannel required_config_by_channel c

abbrev pub AreRefsEnabled : Db → Type 0
AreRefsEnabled db =
    (p : ProfileRecord)
    → Mem p (Profiles.list db)
    → (ref : Text) → Mem ref p.default_channels
    → IsEnabledRef (Channels.list db) ref

-- With consistent tables those two are all that validity needs.
pub get_full_config-IsValid :
    (db : Db)
    → IsConsistent db
    → (AreChannelsValid db × AreRefsEnabled db) ↔ IsValid (get_full_config db)
unfolding get_full_config
get_full_config-IsValid db h = (
  λ (cs, refs). record {
    ids = Nodup-list db h;
    channels = All-of_mem _ _ cs;
    tokens = Nodup-token-list db h;
    refs = All-of_mem _ _ (λ p m. All-of_mem _ _ (refs p m));
  },
  λ v. (λ c m. All-mem _ _ v.channels m, λ p m ref r. All-mem _ _ (All-mem _ _ v.refs m) r),
)
