-- ===== src/Game/Groups/History.antt =====
-- The parties of zone-server/internal/game/groups.go after any calls.
use zone.Prelude.{
  ℕ, ◌+◌, ◌≤◌, ◌<◌, ◌≡◌, ◌≢◌, true, some, List, [], ◌∷◌, arith, length, comparable_nat, contains,
  Option-cases, inl, inr, ◌↔◌,
}
use zone.Prelude.Map.{lookup, Distinct}
use zone.Game.Groups.{Group, GroupManager, u32_mod, new_group_manager, is_same_group}
use zone.Game.Groups.Linked.{Linked, Sized}
use zone.Game.Groups.Inv.{Call, step, step-Linked, step-Sized, step-counts}

unfoldable pub run : GroupManager → List Call → GroupManager
run gm [] = gm
run gm (c ∷ cs) = run (step gm c) cs

run_from-Linked :
    (gm : GroupManager) (cs : List Call)
    → Linked gm
    → gm.next_id + length cs < u32_mod
    → Linked (run gm cs)
unfolding run
run_from-Linked gm [] v small = v
run_from-Linked gm (c ∷ cs) v small =
    run_from-Linked (step gm c) cs (step-Linked gm c v (omega arith))
      (omega (arith, (step-counts gm c).0))

run_from-Sized :
    (gm : GroupManager) (cs : List Call) → Sized gm → 2 ≤ gm.max_members → Sized (run gm cs)
unfolding run
run_from-Sized gm [] v wide = v
run_from-Sized gm (c ∷ cs) v wide =
    run_from-Sized (step gm c) cs (step-Sized gm c v wide) (omega (arith, (step-counts gm c).1))

new-Linked : (max_members ttl : ℕ) → Linked (new_group_manager max_members ttl)
unfolding new_group_manager lookup Distinct
new-Linked max_members ttl = record {
  distinct_groups = tt;
  distinct_membership = tt;
  distinct_invites = tt;
  capacity = ground arith;
  fits = λ k g h. cc;
  entered = λ k g s h c. cc;
  member_of = λ s k h. absurd (ground arith);
  invite_fits = λ t inv h. absurd (ground arith);
}

new-config :
    (max_members ttl : ℕ)
    → let gm = new_group_manager max_members ttl in
      (gm.next_id ≡ 0)
      × (gm.groups ≡ [])
      × (1 ≤ gm.max_members)
      × (gm.max_members ≤ 8)
      × ((max_members ≢ 1) → 2 ≤ gm.max_members)
unfolding new_group_manager
new-config max_members ttl = ground arith

-- After any calls on a new manager, fewer than there are group numbers, the maps have one entry to
-- a key, every entry of a session leads to a group that has it for a member, every member of a
-- group is entered in it, a group has its leader and no one twice among at most as many members as
-- allowed, and an invitation stands under its target, who is not its inviter.
pub run-Linked :
    (max_members ttl : ℕ) (cs : List Call)
    → length cs < u32_mod
    → Linked (run (new_group_manager max_members ttl) cs)
run-Linked max_members ttl cs small =
    run_from-Linked _ cs (new-Linked max_members ttl)
      (omega (arith, (new-config max_members ttl).0))

-- After any calls on a new manager whose limit is not 1, every group has two members at least.
pub run-Sized :
    (max_members ttl : ℕ) (cs : List Call)
    → max_members ≢ 1
    → Sized (run (new_group_manager max_members ttl) cs)
unfolding lookup
run-Sized max_members ttl cs more =
    run_from-Sized _ cs
      (record { pair = λ k g h. absurd (ground (arith, (new-config max_members ttl).1)) })
      ((new-config max_members ttl).4 more)

-- While the maps are in step, two sessions count as grouped together exactly if both numbers are in
-- use and some group has both for members.
pub is_same_group_iff :
    (a b : ℕ) (gm : GroupManager)
    → Linked gm
    → (is_same_group a b gm ≡ true) ↔ (
        (gid : ℕ) × (g : Group) × (a ≢ 0)
        × (b ≢ 0)
        × (lookup gid gm.groups ≡ some g)
        × (contains a g.members ≡ true)
        × (contains b g.members ≡ true))
unfolding is_same_group
is_same_group_iff a b gm v = (there, back)
  where
    there :
        is_same_group a b gm ≡ true
        → (gid : ℕ) × (g : Group) × (a ≢ 0)
          × (b ≢ 0)
          × (lookup gid gm.groups ≡ some g)
          × (contains a g.members ≡ true)
          × (contains b g.members ≡ true)
    there h = elim (Option-cases (lookup a gm.membership)) [
      | inl none_a ↦ absurd (ground arith)
      | inr (gid, in_a) ↦
          let place = v.member_of a gid in_a in
          let in_b : lookup b gm.membership ≡ some gid = ground arith in
          let other = v.member_of b gid in_b in
          (
            gid,
            place.group,
            ground arith,
            ground arith,
            place.found,
            place.holds,
            ground (arith, other.found, place.found, other.holds),
          )
    ]

    back :
        ((gid : ℕ) × (g : Group) × (a ≢ 0)
          × (b ≢ 0)
          × (lookup gid gm.groups ≡ some g)
          × (contains a g.members ≡ true)
          × (contains b g.members ≡ true))
        → is_same_group a b gm ≡ true
    back (gid, g, na, nb, found, ca, cb) =
        ground (arith, v.entered gid g a found ca, v.entered gid g b found cb)
