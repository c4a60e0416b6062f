-- ===== src/Worker/State/Restart.antt =====
-- apps/worker/src/worker-state.ts: the settings, the file that they are kept in and a restart.
use samdi.Common.{
  ℕ, ◌≡◌, refl, ap, String, Bool, true, false, Option, none, some, List, [], ◌∷◌, includes, arith,
  eq_iff, Bool-cases, inl, inr, All,
}
use samdi.Common.Texts.{is_blank}
use samdi.Worker.State.{
  WorkerDefaults, StateFile, absent, unreadable, holds, Disk, WorkerState, Change, refused, changed,
  unsaved, reset, set_labels, set_concurrency, set_default_agent, not_blank, kept_labels,
  kept_concurrency, kept_agent, read, start_worker, read_labels,
}
use samdi.Worker.State.Setters.{
  Full, not_blank-Full, IsClean, Remembers, nothing-IsClean, HoldsAfter, reset-Remembers,
  set_labels-Remembers, set_concurrency-Remembers, set_default_agent-Remembers,
}

not_blank-All : (xs : List String) → All Full (not_blank xs)
not_blank-All [] = tt
not_blank-All (x ∷ xs) = elim (Bool-cases (is_blank x)) [
  | inl blank ↦ rw blank (not_blank-All xs)
  | inr full ↦ rw full (full, not_blank-All xs)
]

start-Remembers :
    (configured : WorkerDefaults) (file : StateFile) → Remembers true (start_worker configured file)
unfolding start_worker read
start-Remembers configured absent = record { stored = λ s. refl; clean = nothing-IsClean }
start-Remembers configured unreadable = record { stored = λ s. refl; clean = nothing-IsClean }
start-Remembers configured (holds raw) = record {
  stored = λ s. refl;
  clean = record {
    labels = labels raw.labels;
    concurrency = concurrency raw.concurrency;
    default_agent = agent raw.default_agent;
  };
}
  where
    listed : (ls : List String) → All Full ls → kept_labels (read_labels ls) ≡ read_labels ls
    listed [] f = refl
    listed (l ∷ ls) f = ap read_labels (not_blank-Full (l ∷ ls) f)

    labels : (o : Option (List String)) → kept_labels (kept_labels o) ≡ kept_labels o
    labels none = refl
    labels (some ls) = listed (not_blank ls) (not_blank-All ls)

    concurrency : (o : Option ℕ) → kept_concurrency (kept_concurrency o) ≡ kept_concurrency o
    concurrency none = refl
    concurrency (some n) = ground arith

    agent : (o : Option String) → kept_agent (kept_agent o) ≡ kept_agent o
    agent none = refl
    agent (some a) = ground arith

-- What the user does on the settings page.
pub data Setting : Type 0 where
  choose_labels : List String → Setting
  choose_concurrency : ℕ → Setting
  choose_agent : String → Setting
  choose_reset : Setting

-- Whether the file is that of the settings, given whether it was before.
abbrev pub saved_by : Change → Bool → Bool
saved_by (refused e) saved = saved
saved_by (changed w) saved = true
saved_by (unsaved w) saved = false

abbrev pub left_by : Change → WorkerState → WorkerState
left_by (refused e) w = w
left_by (changed w') w = w'
left_by (unsaved w') w = w'

left_by-Remembers :
    (c : Change) (saved : Bool) (w : WorkerState)
    → Remembers saved w
    → HoldsAfter c
    → Remembers (saved_by c saved) (left_by c w)
left_by-Remembers (refused e) saved w r h = r
left_by-Remembers (changed w') saved w r h = h
left_by-Remembers (unsaved w') saved w r h = h

module _ (known : List String) where
  unfoldable pub choose : Disk → Setting → WorkerState → Change
  choose disk (choose_labels labels) w = set_labels disk labels w
  choose disk (choose_concurrency n) w = set_concurrency disk n w
  choose disk (choose_agent agent) w = set_default_agent disk agent known w
  choose disk choose_reset w = reset disk w

  -- What the file system does for each setting comes with it.
  unfoldable pub choose_all : List (Disk × Setting) → WorkerState → WorkerState
  unfolding choose
  choose_all [] w = w
  choose_all ((disk, c) ∷ cs) w = choose_all cs (left_by (choose disk c w) w)

  -- Whether the last write or removal of the file did not throw.
  unfoldable pub is_saved : List (Disk × Setting) → Bool → WorkerState → Bool
  unfolding choose
  is_saved [] saved w = saved
  is_saved ((disk, c) ∷ cs) saved w =
      let next = choose disk c w in is_saved cs (saved_by next saved) (left_by next w)

  module _ (full : All Full known) where
    unknown_blank :
        (xs : List String) (agent : String)
        → All Full xs
        → is_blank agent ≡ true
        → includes xs agent ≡ false
    unknown_blank [] agent h b = refl
    unknown_blank (x ∷ xs) agent h b =
        ground (arith, h.0, eq_iff x agent, unknown_blank xs agent h.1 b)

    agent-Remembers :
        (disk : Disk) (agent : String) (w : WorkerState)
        → IsClean w.overrides
        → HoldsAfter (set_default_agent disk agent known w)
    unfolding set_default_agent
    agent-Remembers disk agent w c = elim (Bool-cases (is_blank agent)) [
      | inl blank ↦ rw (unknown_blank known agent full blank) tt
      | inr named ↦ set_default_agent-Remembers disk agent known w named c
    ]

    choose-Remembers :
        (disk : Disk) (c : Setting) (w : WorkerState)
        → IsClean w.overrides
        → HoldsAfter (choose disk c w)
    unfolding choose
    choose-Remembers disk (choose_labels labels) w clean = set_labels-Remembers disk labels w clean
    choose-Remembers disk (choose_concurrency n) w clean = set_concurrency-Remembers disk n w clean
    choose-Remembers disk (choose_agent agent) w clean = agent-Remembers disk agent w clean
    choose-Remembers disk choose_reset w clean = reset-Remembers disk w

    all-Remembers :
        (cs : List (Disk × Setting)) (saved : Bool) (w : WorkerState)
        → Remembers saved w
        → Remembers (is_saved cs saved w) (choose_all cs w)
    unfolding choose_all is_saved
    all-Remembers [] saved w r = r
    all-Remembers ((disk, c) ∷ cs) saved w r =
        all-Remembers cs _ _
          (left_by-Remembers (choose disk c w) saved w r (choose-Remembers disk c w r.clean))

    -- If no known agent has a blank name, then whatever the file held at the start, whatever
    -- settings are made and wherever the file system throws at some of them: if the last write or
    -- removal of the file did not throw, or there was none, reading the file that they leave gives
    -- the settings that the worker had.
    pub restart_remembers :
        (configured : WorkerDefaults) (file : StateFile) (settings : List (Disk × Setting))
        → is_saved settings true (start_worker configured file) ≡ true
        → read (choose_all settings (start_worker configured file)).file
          ≡ (choose_all settings (start_worker configured file)).overrides
    restart_remembers configured file settings saved =
        (all-Remembers settings true (start_worker configured file)
            (start-Remembers configured file)).stored
          saved
