-- ===== src/Worker/Activity.antt =====
-- apps/worker/src/activity-log.ts: `ActivityLog`, the last entries for the display.
use samdi.Common.{
  ℕ, zero, suc, ◌+◌, ◌-◌, ◌≤◌, ◌<◌, ◌≡◌, refl, String, Option, List, [], ◌∷◌, ◌++◌, if◌then◌else◌,
  ltb, length, length-append, drop, arith, Bool-cases, inl, inr, ltb→lt,
}

pub record ActivityEntry : Type 0 where
  pub at : ℕ
  pub type : String
  pub task_id : Option String
  pub detail : Option String

pub record ActivityLog : Type 0 where
  pub entries : List ActivityEntry
  pub capacity : ℕ

-- `xs.slice(-n)`, which is all of `xs` where `n` is 0
abbrev pub slice_last : ℕ → List ActivityEntry → List ActivityEntry
slice_last zero xs = xs
slice_last (suc n) xs = drop (length xs - suc n) xs

unfoldable pub push : ActivityEntry → ActivityLog → ActivityLog
push e log =
    let entries = log.entries ++ e ∷ [] in
    record log {
      entries =
          if ltb log.capacity (length entries) then slice_last log.capacity entries else entries;
    }

abbrev pub reverse_onto : List ActivityEntry → List ActivityEntry → List ActivityEntry
reverse_onto [] acc = acc
reverse_onto (x ∷ xs) acc = reverse_onto xs (x ∷ acc)

-- `list()`, the latest first
abbrev pub latest_first : ActivityLog → List ActivityEntry
latest_first log = reverse_onto log.entries []

length-drop : (n : ℕ) (xs : List ActivityEntry) → length (drop n xs) ≡ length xs - n
length-drop zero xs = omega arith
length-drop (suc n) [] = omega arith
length-drop (suc n) (x ∷ xs) = omega (arith, length-drop n xs)

drop-append :
    (n : ℕ) (xs ys : List ActivityEntry) → n ≤ length xs → drop n (xs ++ ys) ≡ drop n xs ++ ys
drop-append zero xs ys h = refl
drop-append (suc n) [] ys h = absurd (omega (arith, h))
drop-append (suc n) (x ∷ xs) ys h = drop-append n xs ys (omega (arith, h))

reverse_onto-append :
    (xs ys acc : List ActivityEntry)
    → reverse_onto (xs ++ ys) acc ≡ reverse_onto ys (reverse_onto xs acc)
reverse_onto-append [] ys acc = refl
reverse_onto-append (x ∷ xs) ys acc = reverse_onto-append xs ys (x ∷ acc)

-- A log of capacity at least 1 that is within its capacity is within it after `push`, and `list`
-- then shows the new entry first and after it the newest of the old ones.
pub push-latest_first :
    (e : ActivityEntry) (entries : List ActivityEntry) (n : ℕ)
    → length entries ≤ suc n
    → (length (push e (record { entries = entries; capacity = suc n })).entries ≤ suc n)
      × ((k : ℕ) × (latest_first (push e (record { entries = entries; capacity = suc n }))
            ≡ e ∷ reverse_onto (drop k entries) []))
unfolding push
push-latest_first e entries n h = elim (Bool-cases (ltb (suc n) (length (entries ++ e ∷ [])))) [
  | inl full ↦
      let k = length (entries ++ e ∷ []) - suc n in
      let more : suc n < length (entries ++ e ∷ []) =
        ltb→lt (suc n) (length (entries ++ e ∷ [])) full in
      let one : length (entries ++ e ∷ []) ≡ length entries + 1 = length-append entries (e ∷ []) in
      rw full (
        omega (arith, length-drop k (entries ++ e ∷ []), more, one, h),
        (
          k,
          rw (drop-append k entries (e ∷ []) (omega (arith, one, h)))
              (reverse_onto-append (drop k entries) (e ∷ []) []),
        ),
      )
  | inr room ↦
      let fits : length (entries ++ e ∷ []) ≤ suc n = ground arith in
      rw room (fits, (0, reverse_onto-append entries (e ∷ []) []))
]
