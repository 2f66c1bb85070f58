-- ===== src/Game/Stash/Contents.antt =====
-- The entries of one stash under the merges and removals of
-- zone-server/internal/game/stash_manager.go.
use Prim.Native.String.{String}
use text.Mathlib.TextEquality.{eq_iff}
use zone.Prelude.{
  ℕ, zero, suc, ◌+◌, ◌-◌, ◌≤◌, ◌<◌, ◌≡◌, ◌≢◌, refl, none, some, List, [], ◌∷◌, ◌++◌, arith, take,
  drop, get_elem?, set, ◌==◌, comparable_nat, comparable_string, if◌then◌else◌, Option-cases,
  Bool-cases, inl, inr,
}
use zone.Game.Stash.{StashItem, find_stash_item, merge_item, reduce_item}

-- One entry to a section and condition, none of them empty.
unfoldable pub Entries : List StashItem → Type 0
Entries [] = Unit {0}
Entries (i ∷ is) = (find_stash_item is i.section i.condition ≡ none) × (0 < i.count) × Entries is

-- The copies of a section in a list of entries, and those in one condition.
unfoldable pub stashed : String → List StashItem → ℕ
stashed s [] = 0
stashed s (i ∷ is) = (if i.section == s then i.count else 0) + stashed s is

pub find_stash_item-get :
    (items : List StashItem) (section : String) (condition n : ℕ) (i : StashItem)
    → find_stash_item items section condition ≡ some n
    → get_elem? items n ≡ some i
    → (i.section ≡ section) × (i.condition ≡ condition)
unfolding find_stash_item
find_stash_item-get [] section condition n i h g = cc
find_stash_item-get (x ∷ xs) section condition zero i h g = ground (arith, eq_iff x.section section)
find_stash_item-get (x ∷ xs) section condition (suc n) i h g =
    ground (arith, find_stash_item-get xs section condition n i)

pub find_stash_item-get-none :
    (items : List StashItem) (section : String) (condition n : ℕ)
    → find_stash_item items section condition ≡ some n
    → get_elem? items n ≢ none
unfolding find_stash_item
find_stash_item-get-none [] section condition n h g = cc
find_stash_item-get-none (x ∷ xs) section condition zero h g = cc
find_stash_item-get-none (x ∷ xs) section condition (suc n) h g =
    ground (arith, find_stash_item-get-none xs section condition n)

pub stashed-set :
    (s : String) (items : List StashItem) (n : ℕ) (i j : StashItem)
    → get_elem? items n ≡ some i
    → stashed s (set items n j) + (if i.section == s then i.count else 0)
      ≡ stashed s items + (if j.section == s then j.count else 0)
unfolding stashed
stashed-set s [] n i j h = cc
stashed-set s (x ∷ xs) zero i j h = ground arith
stashed-set s (x ∷ xs) (suc n) i j h = ground (arith, stashed-set s xs n i j h)

pub stashed-append :
    (s : String) (xs ys : List StashItem) → stashed s (xs ++ ys) ≡ stashed s xs + stashed s ys
unfolding stashed
stashed-append s [] ys = omega arith
stashed-append s (x ∷ xs) ys = ground (arith, stashed-append s xs ys)

pub stashed-remove :
    (s : String) (items : List StashItem) (n : ℕ) (i : StashItem)
    → get_elem? items n ≡ some i
    → stashed s (take n items ++ drop (suc n) items) + (if i.section == s then i.count else 0)
      ≡ stashed s items
unfolding stashed
stashed-remove s [] n i h = cc
stashed-remove s (x ∷ xs) zero i h = ground arith
stashed-remove s (x ∷ xs) (suc n) i h = ground (arith, stashed-remove s xs n i h)

pub stashed-merge :
    (s section : String) (count condition : ℕ) (items : List StashItem)
    → stashed s (merge_item section count condition items)
      ≡ stashed s items + (if section == s then count else 0)
unfolding merge_item stashed
stashed-merge s section count condition items =
    elim (Option-cases (find_stash_item items section condition)) [
      | inl absent ↦ ground (
        arith,
        absent,
        stashed-append s items
            (record { section = section; count = count; condition = condition } ∷ []),
      )
      | inr (n, found) ↦ elim (Option-cases (get_elem? items n)) [
        | inl out ↦ absurd (find_stash_item-get-none items section condition n found out)
        | inr (i, got) ↦ ground (
          arith,
          found,
          got,
          stashed-set s items n i (record i { count = i.count + count }) got,
          (find_stash_item-get items section condition n i found got).0,
        )
      ]
    ]

pub stashed-reduce :
    (s section : String) (count condition n : ℕ) (i : StashItem) (items : List StashItem)
    → find_stash_item items section condition ≡ some n
    → get_elem? items n ≡ some i
    → count ≤ i.count
    → stashed s (reduce_item n i count items) + (if section == s then count else 0)
      ≡ stashed s items
unfolding reduce_item
stashed-reduce s section count condition n i items found got enough = ground (
  arith,
  stashed-set s items n i (record i { count = i.count - count }) got,
  stashed-remove s items n i got,
  (find_stash_item-get items section condition n i found got).0,
)

module _ (section : String) (condition : ℕ) where
  absent-set :
      (items : List StashItem) (n : ℕ) (i : StashItem) (count : ℕ)
      → find_stash_item items section condition ≡ none
      → get_elem? items n ≡ some i
      → find_stash_item (set items n (record i { count = count })) section condition ≡ none
  unfolding find_stash_item
  absent-set [] n i count h g = cc
  absent-set (x ∷ xs) zero i count h g = ground arith
  absent-set (x ∷ xs) (suc n) i count h g = ground (arith, absent-set xs n i count)

  absent-remove :
      (items : List StashItem) (n : ℕ)
      → find_stash_item items section condition ≡ none
      → find_stash_item (take n items ++ drop (suc n) items) section condition ≡ none
  unfolding find_stash_item
  absent-remove [] zero h = refl
  absent-remove [] (suc n) h = refl
  absent-remove (x ∷ xs) zero h = ground arith
  absent-remove (x ∷ xs) (suc n) h = ground (arith, absent-remove xs n)

  absent-append :
      (items : List StashItem) (i : StashItem)
      → find_stash_item items section condition ≡ none
      → find_stash_item (i ∷ []) section condition ≡ none
      → find_stash_item (items ++ i ∷ []) section condition ≡ none
  unfolding find_stash_item
  absent-append [] i h g = ground arith
  absent-append (x ∷ xs) i h g = ground (arith, absent-append xs i)

set-Entries :
    (items : List StashItem) (n : ℕ) (i : StashItem) (count : ℕ)
    → Entries items
    → get_elem? items n ≡ some i
    → 0 < count
    → Entries (set items n (record i { count = count }))
unfolding Entries
set-Entries [] n i count e g h = tt
set-Entries (x ∷ xs) zero i count e g h = ground arith
set-Entries (x ∷ xs) (suc n) i count e g h =
    (absent-set x.section x.condition xs n i count e.0 g, e.1, set-Entries xs n i count e.2 g h)

remove-Entries :
    (items : List StashItem) (n : ℕ) → Entries items → Entries (take n items ++ drop (suc n) items)
unfolding Entries
remove-Entries [] zero e = tt
remove-Entries [] (suc n) e = tt
remove-Entries (x ∷ xs) zero e = e.2
remove-Entries (x ∷ xs) (suc n) e =
    (absent-remove x.section x.condition xs n e.0, e.1, remove-Entries xs n e.2)

append-Entries :
    (items : List StashItem) (i : StashItem)
    → Entries items
    → find_stash_item items i.section i.condition ≡ none
    → 0 < i.count
    → Entries (items ++ i ∷ [])
unfolding Entries find_stash_item
append-Entries [] i e h c = (refl, c, tt)
append-Entries (x ∷ xs) i e h c = (
  absent-append x.section x.condition xs i e.0
      (ground (arith, eq_iff i.section x.section, eq_iff x.section i.section)),
  e.1,
  append-Entries xs i e.2 (ground arith) c,
)

pub merge-Entries :
    (section : String) (count condition : ℕ) (items : List StashItem)
    → Entries items
    → 0 < count
    → Entries (merge_item section count condition items)
unfolding merge_item
merge-Entries section count condition items e h =
    elim (Option-cases (find_stash_item items section condition)) [
      | inl absent ↦ rw (absent, merge_item) (append-Entries items _ e absent h)
      | inr (n, found) ↦ elim (Option-cases (get_elem? items n)) [
        | inl out ↦ rw (found, merge_item) (rw out e)
        | inr (i, got) ↦
            rw (found, merge_item) (rw got (set-Entries items n i _ e got (omega arith)))
      ]
    ]

pub reduce-Entries :
    (n count : ℕ) (i : StashItem) (items : List StashItem)
    → Entries items
    → get_elem? items n ≡ some i
    → Entries (reduce_item n i count items)
unfolding reduce_item
reduce-Entries n count i items e got = elim (Bool-cases ((i.count - count) == 0)) [
  | inl empty ↦ rw empty (remove-Entries items n e)
  | inr left ↦ rw left (set-Entries items n i (i.count - count) e got (ground arith))
]
