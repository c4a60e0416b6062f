-- ===== src/ControlPlane/Channels/Keys.antt =====
-- apps/control-plane/src/channel-registry.ts: the keys of the channels.
use Prim.Native.String.{◌++◌ as text_append}
use text.Mathlib.TextLemmas.{cons-append, cons≢nil}
use samdi.Common.{
  ℕ, ◌≡◌, ◌≤◌, refl, String, Bool, true, false, ◌&&◌, not, Option, none, some, ◌==◌, if◌then◌else◌,
  arith, final, eq_iff, eq_refl, ==-ne, ◌||◌, zero, suc, sym, ◌∙◌, ◌-◌, ltb,
}
use samdi.Common.Table.{find, has}
use samdi.Common.Table.Deleted.{find-delete_key}
use samdi.Common.Texts.{text_length, slice_to, slice_from}
use samdi.Common.Texts.Lengths.{text_length-append, slice_to-length, slice_from-length}
use samdi.ControlPlane.Db.{Channel, api, InterpreterConfig, channel_key}
use samdi.ControlPlane.Memory.{Server, Runtime, entry_key}
use samdi.ControlPlane.Channels.{
  buildable, is_enabled, get_runtime, authenticate, create, rotate_key, disable, runtime_of,
  mask_key, dots, accepts,
}
use samdi.ControlPlane.Channels.Removal.{remove, task_count, thread_count}
use samdi.ControlPlane.Channels.Purge.{shares_payload, remove_lem}
use samdi.ControlPlane.Channels.Entries.{find-put_runtime}
use samdi.ControlPlane.Channels.Effects.{
  next_key, rotate_key_lem, disable_lem, create_lem, created_row,
}
use samdi.ControlPlane.Channels.Sync.{IsSynced, Agrees}

-- The channel of the table, if it is enabled and has this key, which is not empty.
abbrev pub admitted : String → Option Channel → Bool
admitted key none = false
admitted key (some row) = is_enabled row && (not (key == "") && (row.key == key))

abbrev pub is_some : {A : Type 0} → Option A → Bool
is_some none = false
is_some (some a) = true

-- Where runtimes and rows agree, a key is accepted for a channel exactly when the channel is in
-- the table, is enabled, and has that key, which is not empty.
pub authenticate_iff :
    (s : Server) (channel_id key : String)
    → IsSynced s
    → is_some (authenticate channel_id (some key) s)
      ≡ admitted key (find channel_key channel_id s.db.channels)
unfolding authenticate
authenticate_iff s channel_id key v =
    agreed (get_runtime channel_id s) (find channel_key channel_id s.db.channels)
      (v.agreeing channel_id)
  where
    agreed :
        (o : Option (String × Runtime)) (r : Option Channel)
        → Agrees o r
        → is_some (elim o [ none ↦ none | some e ↦ accepts (some key) e ]) ≡ admitted key r
    agreed none none a = refl
    agreed none (some row) a = ground (arith, a)
    agreed (some e) none a = absurd a
    agreed (some e) (some row) a = ground (arith, a.1, same_key e row a)
      where
        same_key :
            (e : String × Runtime) (row : Channel) → Agrees (some e) (some row) → e.1.key ≡ row.key
        same_key e row a = rw (a.0) refl

new_key_not_empty :
    (random_bytes : ℕ → String) (s : Server) → (next_key random_bytes s == "") ≡ false
new_key_not_empty random_bytes s =
    ==-ne (next_key random_bytes s) ""
      (λ e. cons≢nil (sym (cons-append "c" "h_" (random_bytes s.db.drawn)) ∙ e))

-- Only the key that a method gave out opens the channel.
abbrev pub opens_only_with : String → Runtime → String → Option Runtime
opens_only_with new_key r key = if new_key == key then some r else none

accepts-new :
    (random_bytes : ℕ → String) (s : Server) (id key : String) (r : Runtime)
    → r.key ≡ next_key random_bytes s
    → accepts (some key) (id, r) ≡ opens_only_with (next_key random_bytes s) r key
accepts-new random_bytes s id key r same = rw same (
    ground (
      arith,
      eq_iff key "",
      eq_iff (next_key random_bytes s) key,
      eq_iff (next_key random_bytes s) "",
      new_key_not_empty random_bytes s,
    ))

-- After `rotateKey` on a channel from the API whose interpreter can be built, a key opens the
-- channel exactly when it is the new one.
pub rotate_key-authenticate :
    (random_bytes : ℕ → String) (s : Server) (id key : String) (row : Channel)
    → find channel_key id s.db.channels ≡ some row
    → row.source ≡ api
    → buildable row.interpreter ≡ true
    → authenticate id (some key) (final (rotate_key random_bytes id s))
      ≡ opens_only_with
          (next_key random_bytes s)
          (record (runtime_of row) { key = next_key random_bytes s })
          key
unfolding authenticate
rotate_key-authenticate random_bytes s id key row found is_api b =
    let r = record (runtime_of row) { key = next_key random_bytes s } in
    rw
      (
        rotate_key_lem random_bytes id s,
        final,
        found,
        is_api,
        b,
        authenticate,
        find-put_runtime id r s.runtimes id,
        eq_refl id,
      )
      (accepts-new random_bytes s id key r refl)

pub create-authenticate :
    (random_bytes : ℕ → String) {Json : Type 0} (parse : Option Json → Option InterpreterConfig)
    (s : Server) (id : String) (label : Option String) (i : Option Json) (c : InterpreterConfig)
    (key : String)
    → has entry_key id s.runtimes ≡ false
    → parse i ≡ some c
    → buildable c ≡ true
    → authenticate id (some key) (final (create random_bytes parse id label i s))
      ≡ opens_only_with
          (next_key random_bytes s)
          (runtime_of (created_row random_bytes parse id label c s))
          key
unfolding authenticate
create-authenticate random_bytes parse s id label i c key new good b =
    let r = runtime_of (created_row random_bytes parse id label c s) in
    rw
      (
        create_lem random_bytes parse id label i s,
        final,
        new,
        good,
        b,
        authenticate,
        find-put_runtime id r s.runtimes id,
        eq_refl id,
      )
      (accepts-new random_bytes s id key r refl)

-- After `disable` on a channel from the API no key opens it.
pub disable-authenticate :
    (s : Server) (id : String) (key : Option String) (row : Channel)
    → find channel_key id s.db.channels ≡ some row
    → row.source ≡ api
    → authenticate id key (final (disable id s)) ≡ none
unfolding authenticate
disable-authenticate s id key row found is_api =
    rw
      (
        disable_lem id s,
        final,
        found,
        is_api,
        authenticate,
        find-delete_key entry_key id id s.runtimes,
        eq_refl id,
      )
      refl

pub remove-authenticate :
    (s : Server) (id : String) (key : Option String) (row : Channel)
    → find channel_key id s.db.channels ≡ some row
    → row.source ≡ api
    → shares_payload id s.db ≡ false
    → authenticate id key (final (remove id true s)) ≡ none
unfolding authenticate
remove-authenticate s id key row found is_api free =
    rw
      (
        remove_lem id true s free,
        final,
        found,
        is_api,
        and_not_true (ltb 0 (task_count id s.db) || ltb 0 (thread_count id s.db)),
        authenticate,
        find-delete_key entry_key id id s.runtimes,
        eq_refl id,
      )
      refl
  where
    and_not_true : (b : Bool) → (b && not true) ≡ false
    and_not_true b = ground arith

-- Where runtimes and rows agree, no key opens a disabled channel; yet after `rotateKey` on it, if
-- it is from the API, the new key does.
pub rotate_key-revives :
    (random_bytes : ℕ → String) (s : Server) (id : String) (row : Channel)
    → IsSynced s
    → find channel_key id s.db.channels ≡ some row
    → row.source ≡ api
    → is_enabled row ≡ false
    → ((key : String) → is_some (authenticate id (some key) s) ≡ false)
      × (is_some (
            authenticate id (some (next_key random_bytes s)) (final (rotate_key random_bytes id s)))
          ≡ true)
rotate_key-revives random_bytes s id row v found is_api off = (
  λ key. authenticate_iff s id key v ∙ rw (found, off) refl,
  rw
      (
        rotate_key-authenticate random_bytes s id (next_key random_bytes s) row found is_api
            (ground (arith, v.built id)),
        eq_refl (next_key random_bytes s),
      )
      refl,
)

dots-length : (n : ℕ) → text_length (dots n) ≡ n
unfolding text_length
dots-length zero = refl
dots-length (suc n) = omega (arith, dots-length n)

ellipsis_length : text_length "…" ≡ 1
unfolding text_length
ellipsis_length = refl

pub mask_key_bounds : (key : String) → text_length (mask_key key) ≤ 10
unfolding mask_key
mask_key_bounds key = ground (
  arith,
  dots-length (text_length key),
  text_length-append (slice_to 5 key) (text_append "…" (slice_from (text_length key - 4) key)),
  text_length-append "…" (slice_from (text_length key - 4) key),
  slice_to-length 5 key,
  slice_from-length (text_length key - 4) key,
  ellipsis_length,
)
