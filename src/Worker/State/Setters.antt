-- ===== src/Worker/State/Setters.antt =====
-- apps/worker/src/worker-state.ts: the setters, and what they leave in memory and in the file.
use samdi.Common.{
  ℕ, ◌≡◌, refl, ap, String, Bool, true, false, ◌||◌, List, [], ◌∷◌, ◌++◌, ◌==◌, includes, arith,
  Bool-cases, inl, inr, All, ltb,
}
use samdi.Common.Texts.{trim, is_blank}
use samdi.Common.Texts.Trimming.{is_blank-trim}
use samdi.Worker.State.{
  Overrides, StateFile, absent, unreadable, holds, Disk, works, fails, nothing_changed, removed,
  written, WorkerState, Change, refused, changed, unsaved, is_empty, reset, patch, trimmed,
  distinct_onto, cleaned, same_set, unless_same, set_labels, set_concurrency, set_default_agent,
  not_blank, kept_labels, kept_concurrency, kept_agent, read, patched_labels, same_length,
  read_labels,
}

abbrev pub Full : String → Type 0
Full l = is_blank l ≡ false

trimmed-Full : (labels : List String) → All Full (trimmed labels)
trimmed-Full [] = tt
trimmed-Full (l ∷ ls) = elim (Bool-cases (trim l == "")) [
  | inl blank ↦ rw blank (trimmed-Full ls)
  | inr full ↦ rw full (is_blank-trim l full, trimmed-Full ls)
]

snoc-Full : (set : List String) (l : String) → All Full set → Full l → All Full (set ++ l ∷ [])
snoc-Full [] l h f = (f, tt)
snoc-Full (x ∷ set) l h f = (h.0, snoc-Full set l h.1 f)

distinct_onto-Full :
    (set xs : List String) → All Full set → All Full xs → All Full (distinct_onto set xs)
distinct_onto-Full set [] hs hx = hs
distinct_onto-Full set (x ∷ xs) hs hx = elim (Bool-cases (includes set x)) [
  | inl old ↦ rw old (distinct_onto-Full set xs hs hx.1)
  | inr new ↦ rw new (distinct_onto-Full (set ++ x ∷ []) xs (snoc-Full set x hs hx.0) hx.1)
]

pub not_blank-Full : (xs : List String) → All Full xs → not_blank xs ≡ xs
not_blank-Full [] h = refl
not_blank-Full (x ∷ xs) h = rw (h.0) (ap (λ ys. x ∷ ys) (not_blank-Full xs h.1))

-- What the file keeps of each setting is the setting.
pub record IsClean (o : Overrides) : Type 0 where
  pub labels : kept_labels o.labels ≡ o.labels
  pub concurrency : kept_concurrency o.concurrency ≡ o.concurrency
  pub default_agent : kept_agent o.default_agent ≡ o.default_agent

-- A start on the file that the worker leaves gives its settings back, if the file is `saved`.
pub record Remembers (saved : Bool) (w : WorkerState) : Type 0 where
  pub stored : saved ≡ true → read w.file ≡ w.overrides
  pub clean : IsClean w.overrides

pub nothing-IsClean : IsClean nothing_changed
nothing-IsClean = record { labels = refl; concurrency = refl; default_agent = refl }

abbrev pub HoldsAfter : Change → Type 0
HoldsAfter (refused e) = Unit
HoldsAfter (changed w) = Remembers true w
HoldsAfter (unsaved w) = Remembers false w

pub reset-Remembers : (disk : Disk) (w : WorkerState) → HoldsAfter (reset disk w)
unfolding reset read
reset-Remembers disk w = removal w.file refl disk
  where
    removal :
        (file : StateFile)
        → w.file ≡ file
        → (disk : Disk) → HoldsAfter (removed file disk (record w { overrides = nothing_changed }))
    removal absent e disk = record { stored = λ s. ap read e; clean = nothing-IsClean }
    removal unreadable e works = record { stored = λ s. refl; clean = nothing-IsClean }
    removal unreadable e (fails left) = record { stored = λ s. cc; clean = nothing-IsClean }
    removal (holds o) e works = record { stored = λ s. refl; clean = nothing-IsClean }
    removal (holds o) e (fails left) = record { stored = λ s. cc; clean = nothing-IsClean }

written-Remembers :
    (disk : Disk) (w : WorkerState) → IsClean w.overrides → HoldsAfter (written disk w)
unfolding read
written-Remembers works w c = record {
  stored = λ s. rw (c.labels, c.concurrency, c.default_agent) refl;
  clean = c;
}
written-Remembers (fails left) w c = record { stored = λ s. cc; clean = c }

patch-Remembers :
    (disk : Disk) (o : Overrides) (w : WorkerState) → IsClean o → HoldsAfter (patch disk o w)
unfolding patch
patch-Remembers disk o w c = elim (Bool-cases (is_empty o)) [
  | inl e ↦ rw e (reset-Remembers disk (record w { overrides = o }))
  | inr e ↦ rw e (written-Remembers disk (record w { overrides = o }) c)
]

patched_labels-Remembers :
    (disk : Disk) (ls : List String) (w : WorkerState)
    → All Full ls
    → IsClean w.overrides
    → HoldsAfter (patched_labels disk ls w)
patched_labels-Remembers disk [] w f c = tt
patched_labels-Remembers disk (l ∷ ls) w f c =
    patch-Remembers disk
      (record w.overrides { labels = unless_same (same_set (l ∷ ls) w.configured.labels) (l ∷ ls) })
      w
      (record {
        labels = kept (same_set (l ∷ ls) w.configured.labels);
        concurrency = c.concurrency;
        default_agent = c.default_agent;
      })
  where
    kept : (b : Bool) → kept_labels (unless_same b (l ∷ ls)) ≡ unless_same b (l ∷ ls)
    kept true = refl
    kept false = ap read_labels (not_blank-Full (l ∷ ls) f)

pub set_labels-Remembers :
    (disk : Disk) (labels : List String) (w : WorkerState)
    → IsClean w.overrides
    → HoldsAfter (set_labels disk labels w)
unfolding set_labels
set_labels-Remembers disk labels w c =
    patched_labels-Remembers disk (cleaned labels) w
      (distinct_onto-Full [] (trimmed labels) tt (trimmed-Full labels)) c

pub set_concurrency-Remembers :
    (disk : Disk) (n : ℕ) (w : WorkerState)
    → IsClean w.overrides
    → HoldsAfter (set_concurrency disk n w)
unfolding set_concurrency
set_concurrency-Remembers disk n w c = elim (Bool-cases (ltb n 1 || ltb 32 n)) [
  | inl bad ↦ rw bad tt
  | inr good ↦ rw good (
      patch-Remembers disk
        (record w.overrides {
          concurrency = unless_same (same_length n w.configured.concurrency) n;
        })
        w
        (record {
          labels = c.labels;
          concurrency = kept (same_length n w.configured.concurrency) good;
          default_agent = c.default_agent;
        }))
]
  where
    kept :
        (b : Bool)
        → (ltb n 1 || ltb 32 n) ≡ false
        → kept_concurrency (unless_same b n) ≡ unless_same b n
    kept true g = refl
    kept false g = ground arith

pub set_default_agent-Remembers :
    (disk : Disk) (agent : String) (known : List String) (w : WorkerState)
    → is_blank agent ≡ false
    → IsClean w.overrides
    → HoldsAfter (set_default_agent disk agent known w)
unfolding set_default_agent
set_default_agent-Remembers disk agent known w full c = elim (Bool-cases (includes known agent)) [
  | inr unknown ↦ rw unknown tt
  | inl is_known ↦ rw is_known (
      patch-Remembers disk
        (record w.overrides {
          default_agent = unless_same (agent == w.configured.default_agent) agent;
        })
        w
        (record {
          labels = c.labels;
          concurrency = c.concurrency;
          default_agent = kept (agent == w.configured.default_agent);
        }))
]
  where
    kept : (b : Bool) → kept_agent (unless_same b agent) ≡ unless_same b agent
    kept true = refl
    kept false = rw full refl
