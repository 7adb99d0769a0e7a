-- ===== src/Db/Profiles/Links.antt =====
-- The loop of `replaceDefaultChannels`: which rows it leaves in profile_channels.
use notify_hub.Base.{
  true, some, List, [], ◌∷◌, filter, ◌&&◌, Text, ◌==◌, ==_iff, ==_refl, ◌≡◌, ◌≢◌, refl, ◌↔◌, ◌⊎◌,
  Mem, Nodup, mem-append, Nodup-concat, filter-append, append-nil, ◌∙◌, arith,
}
use notify_hub.Base.Table.{any-mem}
use notify_hub.Db.{Db, ProfileChannel}
use notify_hub.Db.Profiles.{has_channel, has_profile, has_link, insert_link, insert_links}

module _ (db : Db) (pid : Text) where
  -- What the loop adds for one id.
  abbrev link : Text → ProfileChannel
  link cid = record { profile_id = pid; channel_id = cid }

  abbrev IsAdded : List Text → ProfileChannel → Type 0
  IsAdded ids l =
      (l.profile_id ≡ pid)
      × Mem l.channel_id ids
      × (has_channel db l.channel_id ≡ true)
      × (has_profile db pid ≡ true)

  has_link-mem :
      (cid : Text) (links : List ProfileChannel)
      → has_link pid cid links ≡ true
      → Mem (link cid) links
  unfolding has_link
  has_link-mem cid [] h = cc
  has_link-mem cid (l ∷ links) h =
      ground (arith, ==_iff l.profile_id pid, ==_iff l.channel_id cid, has_link-mem cid links)

  mem-has_link :
      (cid : Text) (links : List ProfileChannel)
      → Mem (link cid) links
      → has_link pid cid links ≡ true
  unfolding has_link
  mem-has_link cid links m =
      any-mem (λ l. l.profile_id == pid && l.channel_id == cid) links (link cid) m
        (rw (==_refl pid) (==_refl cid))

  mem-insert_link :
      (cid : Text) (links : List ProfileChannel) (l : ProfileChannel)
      → Mem l (insert_link db pid cid links)
        ↔ (Mem l links ⊎ ((l ≡ link cid) × (has_channel db cid ≡ true)))
  unfolding insert_link
  mem-insert_link cid links l =
      ground (arith, has_link-mem cid links, mem-append l links (link cid ∷ []))

  Nodup-insert_link :
      (cid : Text) (links : List ProfileChannel)
      → Nodup links
      → Nodup (insert_link db pid cid links)
  unfolding insert_link
  Nodup-insert_link cid links h =
      ground (arith, mem-has_link cid links, Nodup-concat (link cid) links h)

  filter-insert_link :
      (other cid : Text) (links : List ProfileChannel)
      → other ≢ pid
      → filter (λ l. l.profile_id == other) (insert_link db pid cid links)
        ≡ filter (λ l. l.profile_id == other) links
  unfolding insert_link
  filter-insert_link other cid links ne = ground (
    arith,
    filter-append (λ (l : ProfileChannel). l.profile_id == other) links (link cid ∷ []),
    ==_iff pid other,
    append-nil (filter (λ (l : ProfileChannel). l.profile_id == other) links),
  )

  insert_links-cons :
      (cid : Text) (ids : List Text) (links out : List ProfileChannel)
      → insert_links db pid (cid ∷ ids) links ≡ some out
      → (insert_links db pid ids (insert_link db pid cid links) ≡ some out)
        × (has_channel db cid ≡ true → has_profile db pid ≡ true)
  unfolding insert_links
  insert_links-cons cid ids links out e = ground arith

  -- With the profile there, the loop never breaks a foreign key.
  pub insert_links_total :
      (ids : List Text) (links : List ProfileChannel)
      → has_profile db pid ≡ true
      → (out : List ProfileChannel) × (insert_links db pid ids links ≡ some out)
  unfolding insert_links
  insert_links_total [] links h = (links, refl)
  insert_links_total (cid ∷ ids) links h =
      let (out, e) = insert_links_total ids (insert_link db pid cid links) h in (out, ground arith)

  pub insert_links-mem :
      (ids : List Text) (links out : List ProfileChannel) (l : ProfileChannel)
      → insert_links db pid ids links ≡ some out
      → Mem l out ↔ (Mem l links ⊎ IsAdded ids l)
  unfolding insert_links
  insert_links-mem [] links out l e = ground arith
  insert_links-mem (cid ∷ ids) links out l e =
      let (e', fk) = insert_links-cons cid ids links out e in
      ground (
        arith,
        fk,
        insert_links-mem ids (insert_link db pid cid links) out l e',
        mem-insert_link cid links l,
      )

  pub Nodup-insert_links :
      (ids : List Text) (links out : List ProfileChannel)
      → insert_links db pid ids links ≡ some out
      → Nodup links
      → Nodup out
  Nodup-insert_links [] links out e h = unfold insert_links in ground arith
  Nodup-insert_links (cid ∷ ids) links out e h =
      Nodup-insert_links ids _ out (insert_links-cons cid ids links out e).0
        (Nodup-insert_link cid links h)

  -- The rows of other profiles are left alone.
  pub filter-insert_links :
      (other : Text) (ids : List Text) (links out : List ProfileChannel)
      → other ≢ pid
      → insert_links db pid ids links ≡ some out
      → filter (λ l. l.profile_id == other) out ≡ filter (λ l. l.profile_id == other) links
  filter-insert_links other [] links out ne e = unfold insert_links in ground arith
  filter-insert_links other (cid ∷ ids) links out ne e =
      filter-insert_links other ids _ out ne (insert_links-cons cid ids links out e).0
      ∙ filter-insert_link other cid links ne
