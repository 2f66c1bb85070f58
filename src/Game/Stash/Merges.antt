-- ===== src/Game/Stash/Merges.antt =====
-- Where a deposit of zone-server/internal/game/stash_manager.go puts what it brings.
use Prim.Native.String.{String}
use text.Mathlib.TextEquality.{eq_iff}
use zone.Prelude.{
  ℕ, zero, suc, ◌+◌, ◌≤◌, ◌≡◌, refl, none, some, List, [], ◌∷◌, ◌++◌, arith, length, get_elem?, set,
  comparable_nat, comparable_string, Option-cases, inl, inr,
}
use zone.Game.Stash.{StashItem, find_stash_item, merge_item}
use zone.Game.Stash.Contents.{find_stash_item-get, find_stash_item-get-none}

find-set :
    (items : List StashItem) (section : String) (condition n count : ℕ) (i : StashItem)
    → find_stash_item items section condition ≡ some n
    → get_elem? items n ≡ some i
    → find_stash_item (set items n (record i { count = count })) section condition ≡ some n
unfolding find_stash_item
find-set [] section condition n count i h g = cc
find-set (x ∷ xs) section condition zero count i h g = ground arith
find-set (x ∷ xs) section condition (suc n) count i h g =
    ground (arith, find-set xs section condition n count i)

get-set :
    (items : List StashItem) (n : ℕ) (i j : StashItem)
    → get_elem? items n ≡ some i
    → get_elem? (set items n j) n ≡ some j
get-set [] n i j h = cc
get-set (x ∷ xs) zero i j h = refl
get-set (x ∷ xs) (suc n) i j h = get-set xs n i j h

find-append :
    (items : List StashItem) (i : StashItem)
    → find_stash_item items i.section i.condition ≡ none
    → find_stash_item (items ++ i ∷ []) i.section i.condition ≡ some (length items)
unfolding find_stash_item
find-append [] i h = ground (arith, eq_iff i.section i.section)
find-append (x ∷ xs) i h = ground (arith, find-append xs i)

get-append :
    (items : List StashItem) (i : StashItem) → get_elem? (items ++ i ∷ []) (length items) ≡ some i
get-append [] i = refl
get-append (x ∷ xs) i = get-append xs i

pub find-merge :
    (section : String) (count condition : ℕ) (items : List StashItem)
    → (n : ℕ) × (i : StashItem) × (find_stash_item
          (merge_item section count condition items)
          section
          condition
        ≡ some n)
      × (get_elem? (merge_item section count condition items) n ≡ some i)
      × (i.condition ≡ condition)
      × (count ≤ i.count)
unfolding merge_item
find-merge section count condition items =
    elim (Option-cases (find_stash_item items section condition)) [
      | inl absent ↦
          let new : StashItem = record {
            section = section;
            count = count;
            condition = condition;
          } in
          rw (absent, merge_item)
            (
              length items,
              new,
              find-append items new absent,
              get-append items new,
              refl,
              omega arith,
            )
      | inr (n, found) ↦ elim (Option-cases (get_elem? items n)) [
        | inl out ↦ absurd (find_stash_item-get-none items section condition n found out)
        | inr (i, got) ↦
            rw (found, merge_item)
              (rw got (
                n,
                record i { count = i.count + count },
                find-set items section condition n (i.count + count) i found got,
                get-set items n i (record i { count = i.count + count }) got,
                (find_stash_item-get items section condition n i found got).1,
                omega arith,
              ))
      ]
    ]
