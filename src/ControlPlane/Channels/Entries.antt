-- ===== src/ControlPlane/Channels/Entries.antt =====
-- What is found after an entry of the map of runtimes or a row of the channels is written.
use samdi.Common.{
  ◌≡◌, refl, String, Option, none, some, List, [], ◌∷◌, ◌==◌, if◌then◌else◌, arith, eq_iff,
  Option-cases, inl, inr,
}
use samdi.Common.Table.{
  find, find-update, find-append, has-find, find-key, HasUniqueKeys, HasUniqueKeys-update,
  HasUniqueKeys-append,
}
use samdi.ControlPlane.Db.{Channel, channel_key}
use samdi.ControlPlane.Memory.{Runtime, entry_key}
use samdi.ControlPlane.Channels.{put_runtime, upserted, revived}

pub find-put_runtime :
    (id : String) (r : Runtime) (runtimes : List (String × Runtime)) (j : String)
    → find entry_key j (put_runtime id r runtimes)
      ≡ (if id == j then some (id, r) else find entry_key j runtimes)
find-put_runtime id r runtimes j = elim (Option-cases (find entry_key id runtimes)) [
  | inl absent ↦ ground (
    arith,
    has-find entry_key id runtimes,
    find-append entry_key j runtimes ((id, r) ∷ []),
    eq_iff id j,
  )
  | inr (e, found) ↦ ground (
    arith,
    eq_iff id j,
    has-find entry_key id runtimes,
    find-key entry_key id runtimes found,
    find-update entry_key (λ x. (x.0, r)) (λ x. refl) id j runtimes,
  )
]

-- The row that an upsert leaves.
abbrev pub upserted_row : Channel → Option Channel → Channel
upserted_row c none = c
upserted_row c (some r) = revived c r

pub find-upserted :
    (c : Channel) (channels : List Channel) (j : String)
    → find channel_key j (upserted c channels) ≡ (
        if c.id == j
        then some (upserted_row c (find channel_key c.id channels))
        else find channel_key j channels)
find-upserted c channels j = ground (
  arith,
  eq_iff c.id j,
  has-find channel_key c.id channels,
  find-update channel_key (revived c) (λ r. refl) c.id j channels,
  find-append channel_key j channels (c ∷ []),
)

pub HasUniqueKeys-upserted :
    (c : Channel) (channels : List Channel)
    → HasUniqueKeys channel_key channels
    → HasUniqueKeys channel_key (upserted c channels)
HasUniqueKeys-upserted c channels u = ground (
  arith,
  has-find channel_key c.id channels,
  HasUniqueKeys-update channel_key (revived c) (λ r. refl) c.id channels u,
  HasUniqueKeys-append channel_key channels c u,
)
