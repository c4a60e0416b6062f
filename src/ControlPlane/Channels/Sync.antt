-- ===== src/ControlPlane/Channels/Sync.antt =====
-- apps/control-plane/src/channel-registry.ts: the map of runtimes beside the rows of the channels.
use samdi.Common.{
  ℕ, ◌≡◌, refl, String, Bool, true, false, Option, none, some, ◌==◌, ◌⊎◌, arith, eq_iff, eq_refl,
  text-cases, sym, ap, Outcome, Option-cases, inl, inr, final,
}
use samdi.Common.Table.{find, HasUniqueKeys, find-update, HasUniqueKeys-update, find-key, delete}
use samdi.Common.Table.Deleted.{find-delete_key}
use samdi.ControlPlane.Db.{Failure, Channel, ChannelSource, config, api, channel_key}
use samdi.ControlPlane.Memory.{Runtime, Server, entry_key}
use samdi.ControlPlane.Channels.{buildable, runtime_of, is_enabled, get_runtime, upserted}
use samdi.ControlPlane.Channels.Effects.{
  on_editable, with_channels, with_draw, with_runtime, written_row,
}
use samdi.ControlPlane.Channels.Entries.{
  find-put_runtime, find-upserted, upserted_row, HasUniqueKeys-upserted,
}

-- What a runtime has to do with the row of its channel: it has the row's label, key and
-- interpreter, and just the enabled channels have one.
abbrev pub Agrees : Option (String × Runtime) → Option Channel → Type 0
Agrees none none = Unit
Agrees none (some row) = is_enabled row ≡ false
Agrees (some e) none = ⊥
Agrees (some e) (some row) = (e.1 ≡ runtime_of row) × (is_enabled row ≡ true)

-- The interpreter of the row, if there is one, can be built.
abbrev pub row_buildable : Option Channel → Bool
row_buildable none = true
row_buildable (some row) = buildable row.interpreter

source-cases : (c : ChannelSource) → (c ≡ config) ⊎ (c ≡ api)
source-cases config = inl refl
source-cases api = inr refl

-- Keys are unique, runtimes and rows agree, and the interpreters can be built.
pub record IsSynced (s : Server) : Type 0 where
  pub unique : HasUniqueKeys channel_key s.db.channels
  pub agreeing : (id : String) → Agrees (get_runtime id s) (find channel_key id s.db.channels)
  pub built : (id : String) → row_buildable (find channel_key id s.db.channels) ≡ true

module _ (s : Server) (v : IsSynced s) where
  -- A row is rewritten under its key, and its runtime set.
  pub rewritten-IsSynced :
      (f : Channel → Channel) (id : String) (row : Channel)
      → ((r : Channel) → (f r).id ≡ r.id)
      → find channel_key id s.db.channels ≡ some row
      → buildable (f row).interpreter ≡ true
      → is_enabled (f row) ≡ true
      → IsSynced (with_runtime id (runtime_of (f row)) (written_row f id s))
  rewritten-IsSynced f id row same found b enabled = record {
    unique = HasUniqueKeys-update channel_key f same id s.db.channels v.unique;
    agreeing = λ j. elim (text-cases id j) [
      | inl e ↦
          rw
            (
              find-put_runtime id (runtime_of (f row)) s.runtimes j,
              find-update channel_key f same id j s.db.channels,
              sym e,
              found,
              eq_refl id,
            )
            (refl, enabled)
      | inr n ↦
          rw
            (
              find-put_runtime id (runtime_of (f row)) s.runtimes j,
              find-update channel_key f same id j s.db.channels,
              n,
            )
            (v.agreeing j)
    ];
    built = λ j.
        ground (arith, eq_iff id j, find-update channel_key f same id j s.db.channels, v.built j);
  }

  -- A disabled row is rewritten, and stays without a runtime.
  pub disabled-IsSynced :
      (f : Channel → Channel) (id : String) (row : Channel)
      → ((r : Channel) → (f r).id ≡ r.id)
      → find channel_key id s.db.channels ≡ some row
      → buildable (f row).interpreter ≡ true
      → is_enabled (f row) ≡ false
      → get_runtime id s ≡ none
      → IsSynced (written_row f id s)
  disabled-IsSynced f id row same found b off no_runtime = record {
    unique = HasUniqueKeys-update channel_key f same id s.db.channels v.unique;
    agreeing = λ j. elim (text-cases id j) [
      | inl e ↦
          rw
            (
              find-update channel_key f same id j s.db.channels,
              sym e,
              found,
              no_runtime,
              eq_refl id,
            )
            off
      | inr n ↦ rw (find-update channel_key f same id j s.db.channels, n) (v.agreeing j)
    ];
    built = λ j.
        ground (arith, eq_iff id j, find-update channel_key f same id j s.db.channels, v.built j);
  }

  -- A row is upserted, and its runtime set.
  pub upserted-IsSynced :
      (c : Channel)
      → buildable c.interpreter ≡ true
      → is_enabled c ≡ true
      → IsSynced (with_runtime c.id (runtime_of c) (with_channels (upserted c s.db.channels) s))
  upserted-IsSynced c b enabled = record {
    unique = HasUniqueKeys-upserted c s.db.channels v.unique;
    agreeing = λ j. elim (text-cases c.id j) [
      | inl e ↦
          rw
            (
              find-put_runtime c.id (runtime_of c) s.runtimes j,
              find-upserted c s.db.channels j,
              sym e,
              eq_refl c.id,
            )
            (upserted_runtime (find channel_key c.id s.db.channels)
              (λ r found. find-key channel_key c.id s.db.channels found))
      | inr n ↦
          rw (find-put_runtime c.id (runtime_of c) s.runtimes j, find-upserted c s.db.channels j, n)
            (v.agreeing j)
    ];
    built = λ j. ground (arith, eq_iff c.id j, find-upserted c s.db.channels j, v.built j);
  }
    where
      upserted_runtime :
          (o : Option Channel)
          → ((r : Channel) → o ≡ some r → r.id ≡ c.id)
          → (runtime_of c ≡ runtime_of (upserted_row c o)) × (is_enabled (upserted_row c o) ≡ true)
      upserted_runtime none same = (refl, enabled)
      upserted_runtime (some r) same =
          (ap (λ id. record (runtime_of c) { id = id }) (sym (same r refl)), refl)

  -- A channel loses its runtime, and its row is disabled.
  pub off-IsSynced :
      (id : String) (row : Channel) (t : ℕ)
      → find channel_key id s.db.channels ≡ some row
      → IsSynced (record (written_row (λ r. record r { disabled_at = some t }) id s) {
        runtimes = delete (λ e. e.0 == id) s.runtimes;
      })
  off-IsSynced id row t found =
      let f = λ (r : Channel). record r { disabled_at = some t } in
      record {
        unique = HasUniqueKeys-update channel_key f (λ r. refl) id s.db.channels v.unique;
        agreeing = λ j. elim (text-cases id j) [
          | inl e ↦
              rw
                (
                  find-delete_key entry_key id j s.runtimes,
                  find-update channel_key f (λ r. refl) id j s.db.channels,
                  sym e,
                  found,
                  eq_refl id,
                )
                refl
          | inr n ↦
              rw
                (
                  find-delete_key entry_key id j s.runtimes,
                  find-update channel_key f (λ r. refl) id j s.db.channels,
                  n,
                )
                (v.agreeing j)
        ];
        built = λ j. ground (
          arith,
          eq_iff id j,
          find-update channel_key f (λ r. refl) id j s.db.channels,
          v.built j,
        );
      }

  pub draw-IsSynced : IsSynced (with_draw s)
  draw-IsSynced = record { unique = v.unique; agreeing = v.agreeing; built = v.built }

  pub editable-IsSynced :
      {A : Type 0} (id : String) (k : Channel → Outcome Failure Server A)
      → ((row : Channel) → find channel_key id s.db.channels ≡ some row → IsSynced (final (k row)))
      → IsSynced (final (on_editable id k s))
  editable-IsSynced id k h = elim (Option-cases (find channel_key id s.db.channels)) [
    | inl absent ↦ rw (final, absent) v
    | inr (row, found) ↦
        rw (final, found)
          (elim (source-cases row.source) [
            | inl is_config ↦ rw is_config v
            | inr is_api ↦ rw is_api (h row found)
          ])
  ]
