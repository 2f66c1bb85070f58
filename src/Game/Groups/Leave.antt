-- ===== src/Game/Groups/Leave.antt =====
-- `Leave` of zone-server/internal/game/groups.go keeps the parties in order.
use zone.Prelude.{
  ℕ, ◌≡◌, refl, true, ◌&&◌, ◌||◌, Option, none, some, arith, length, contains, without,
  contains-without, leb, ◌==◌, comparable_nat, if◌then◌else◌, Bool-cases, Option-cases, inl, inr,
}
use zone.Prelude.Map.{lookup, delete, lookup-insert, lookup-delete}
use zone.Game.Groups.{Group, GroupManager, Player, shrink_group, leave}
use zone.Game.Groups.Linked.{Linked, Sized}
use zone.Game.Groups.Depart.{shrunk, lookup-dissolved, dissolved-Linked, reduced-Linked}

shrink_group-Linked :
    (sid gid : ℕ) (g : Group) (gm : GroupManager)
    → Linked gm
    → lookup sid gm.membership ≡ some gid
    → lookup gid gm.groups ≡ some g
    → Linked (shrink_group sid gid g (record gm { membership = delete sid gm.membership }))
unfolding shrink_group
shrink_group-Linked sid gid g gm v place found =
    elim (Bool-cases (g.leader_id == sid || leb (length (without sid g.members)) 1)) [
      | inl over ↦ rw over (dissolved-Linked sid gid g gm v place found)
      | inr goes_on ↦ rw goes_on (reduced-Linked sid gid g gm v place found (ground arith))
    ]

pub leave-Linked : (p : Option Player) (gm : GroupManager) → Linked gm → Linked (leave p gm).0
unfolding leave
leave-Linked none gm v = v
leave-Linked (some p) gm v = elim (Option-cases (lookup p.session_id gm.membership)) [
  | inl outside ↦ rw (outside, leave) v
  | inr (gid, place) ↦
      let home = v.member_of p.session_id gid place in
      rw (place, leave)
        (rw (home.found) (shrink_group-Linked p.session_id gid home.group gm v place home.found))
]

shrink_group-out :
    (sid gid s : ℕ) (g : Group) (gm : GroupManager)
    → Linked gm
    → lookup sid gm.membership ≡ some gid
    → lookup gid gm.groups ≡ some g
    → lookup s
        (shrink_group sid gid g (record gm { membership = delete sid gm.membership })).membership
      ≡ (if sid == s
          then none
          else if contains s g.members
              && (g.leader_id == sid || leb (length (without sid g.members)) 1)
          then none
          else lookup s gm.membership)
unfolding shrink_group
shrink_group-out sid gid s g gm v place found = ground (
  arith,
  lookup-dissolved sid gid g gm v place found s,
  lookup-delete s sid gm.membership,
  contains-without s sid g.members,
)

-- While the maps are in step, `leave` takes a member out of its group and returns the members that
-- the group had. If it led the group, or at most one member is left, every member of the group is
-- out of it afterwards; otherwise the others keep their entry, as do sessions outside the group.
pub leave_lem :
    (p : Player) (gid s : ℕ) (g : Group) (gm : GroupManager)
    → Linked gm
    → lookup p.session_id gm.membership ≡ some gid
    → lookup gid gm.groups ≡ some g
    → ((leave (some p) gm).1 ≡ record { group_id = gid; roster = g.members; was_member = true })
      × (lookup s (leave (some p) gm).0.membership ≡ (
          if p.session_id == s
          then none
          else if contains s g.members
              && (g.leader_id == p.session_id || leb (length (without p.session_id g.members)) 1)
          then none
          else lookup s gm.membership))
unfolding leave
leave_lem p gid s g gm v place found =
    rw (place, leave) (rw found (refl, shrink_group-out p.session_id gid s g gm v place found))

shrink_group-Sized :
    (sid gid : ℕ) (g : Group) (gm : GroupManager)
    → Sized gm
    → Sized (shrink_group sid gid g (record gm { membership = delete sid gm.membership }))
unfolding shrink_group
shrink_group-Sized sid gid g gm v = record {
  pair = λ k f h. ground (
    arith,
    v.pair k f,
    lookup-delete k gid gm.groups,
    lookup-insert k gid (shrunk sid g) gm.groups,
  );
}

pub leave-Sized : (p : Option Player) (gm : GroupManager) → Sized gm → Sized (leave p gm).0
unfolding leave
leave-Sized none gm v = v
leave-Sized (some p) gm v = elim (Option-cases (lookup p.session_id gm.membership)) [
  | inl outside ↦ rw (outside, leave) v
  | inr (gid, place) ↦
      rw (place, leave)
        (elim (Option-cases (lookup gid gm.groups)) [
          | inl gone ↦ rw gone (record { pair = v.pair })
          | inr (g, found) ↦ rw found (shrink_group-Sized p.session_id gid g gm v)
        ])
]
