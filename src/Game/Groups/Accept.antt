-- ===== src/Game/Groups/Accept.antt =====
-- `Accept` of zone-server/internal/game/groups.go keeps the parties in order.
use zone.Prelude.{
  ℕ, ◌+◌, ◌%◌, ◌≤◌, ◌<◌, ◌≡◌, ◌≢◌, Option, none, some, [], ◌∷◌, ◌++◌, arith, length, length-append,
  leb, ltb, comparable_nat, Bool-cases, Option-cases, inl, inr,
}
use zone.Prelude.Map.{
  lookup, insert, delete, lookup-insert, lookup-insert_self, lookup-delete, delete-Distinct,
}
use zone.Game.Groups.{
  Group, GroupInvite, GroupManager, Player, ok, u32_mod, found_group, join_group, accept_live,
  accept,
}
use zone.Game.Groups.Linked.{Linked, Sized}
use zone.Game.Groups.Join.{joined-Linked, started-Linked, solo}

-- What `found_group` leaves for the session that is to join.
record Ready (gm : GroupManager) (target gid : ℕ) : Type 0 where
  linked : Linked gm
  free : lookup target gm.membership ≡ none
  group : Group
  found : lookup gid gm.groups ≡ some group

found_group-Ready :
    (inviter target : ℕ) (gm : GroupManager)
    → Linked gm
    → gm.next_id + 1 < u32_mod
    → inviter ≢ target
    → lookup target gm.membership ≡ none
    → Ready (found_group inviter gm).0 target (found_group inviter gm).1
unfolding found_group
found_group-Ready inviter target gm v small other free =
    elim (Option-cases (lookup inviter gm.membership)) [
      | inl new ↦
          rw (new, found_group)
            (record {
              linked = started-Linked inviter _ gm v new (omega arith);
              free =
                  ground (
                    arith,
                    lookup-insert target inviter ((gm.next_id + 1) % u32_mod) gm.membership,
                  );
              group = solo inviter ((gm.next_id + 1) % u32_mod) gm v new (omega arith);
              found = lookup-insert_self _ _ gm.groups;
            })
      | inr (gid, old) ↦
          rw (old, found_group)
            (record {
              linked = v;
              free = free;
              group = (v.member_of inviter gid old).group;
              found = (v.member_of inviter gid old).found;
            })
    ]

join_group-Linked :
    (gid target : ℕ) (gm : GroupManager) → Ready gm target gid → Linked (join_group gid target gm).0
unfolding join_group
join_group-Linked gid target gm r =
    rw (r.found, join_group)
      (elim (Bool-cases (leb gm.max_members (length r.group.members))) [
        | inl full ↦ rw full r.linked
        | inr room ↦
            rw room (joined-Linked gid target r.group gm r.linked r.found r.free (ground arith))
      ])

accept_live-Linked :
    (target : ℕ) (inv : GroupInvite) (gm : GroupManager)
    → Linked gm
    → gm.next_id + 1 < u32_mod
    → inv.inviter_id ≢ target
    → Linked (accept_live target inv gm).0
unfolding accept_live
accept_live-Linked target inv gm v small other = elim (Option-cases (lookup target gm.membership)) [
  | inl free ↦
      rw (free, accept_live)
        (join_group-Linked _ target _
          (found_group-Ready inv.inviter_id target gm v small other free))
  | inr (gid, old) ↦ rw (old, accept_live) v
]

pub uninvited-Linked :
    (target : ℕ) (gm : GroupManager)
    → Linked gm
    → Linked (record gm { invites = delete target gm.invites })
uninvited-Linked target gm v = record {
  distinct_groups = v.distinct_groups;
  distinct_membership = v.distinct_membership;
  distinct_invites = delete-Distinct target gm.invites v.distinct_invites;
  capacity = v.capacity;
  fits = λ k f h. ground (arith, v.fits k f h);
  entered = v.entered;
  member_of = λ s k h. record {
    group = (v.member_of s k h).group;
    found = (v.member_of s k h).found;
    holds = (v.member_of s k h).holds;
  };
  invite_fits = λ t inv h. ground (arith, lookup-delete t target gm.invites, v.invite_fits t inv);
}

pub accept-Linked :
    (now : ℕ) (p : Option Player) (gm : GroupManager)
    → Linked gm
    → gm.next_id + 1 < u32_mod
    → Linked (accept now p gm).0
unfolding accept
accept-Linked now none gm v small = v
accept-Linked now (some p) gm v small = elim (Option-cases (lookup p.session_id gm.invites)) [
  | inl none_pending ↦ rw (none_pending, accept) v
  | inr (inv, pending) ↦
      rw (pending, accept)
        (elim (Bool-cases (ltb inv.expires_at now)) [
          | inl late ↦ rw late (uninvited-Linked p.session_id gm v)
          | inr live ↦ rw live (
              accept_live-Linked p.session_id inv _ (uninvited-Linked p.session_id gm v) small
                (v.invite_fits p.session_id inv pending).other)
        ])
]

-- Every group but the one under `gid` has two members, and that one has a member.
record AlmostSized (gid : ℕ) (gm : GroupManager) : Type 0 where
  wide : 2 ≤ gm.max_members
  pair_elsewhere :
      (k : ℕ) (f : Group) → lookup k gm.groups ≡ some f → k ≢ gid → 2 ≤ length f.members
  inhabited : (f : Group) → lookup gid gm.groups ≡ some f → 1 ≤ length f.members

found_group-AlmostSized :
    (inviter : ℕ) (gm : GroupManager)
    → Sized gm
    → 2 ≤ gm.max_members
    → AlmostSized (found_group inviter gm).1 (found_group inviter gm).0
unfolding found_group
found_group-AlmostSized inviter gm v wide = elim (Option-cases (lookup inviter gm.membership)) [
  | inr (gid, old) ↦
      rw (old, found_group)
        (record {
          wide = wide;
          pair_elsewhere = λ k f h other. v.pair k f h;
          inhabited = λ f h. ground (arith, v.pair gid f h);
        })
  | inl new ↦
      let gid = (gm.next_id + 1) % u32_mod in
      let g : Group = record { id = gid; leader_id = inviter; members = inviter ∷ [] } in
      rw (new, found_group)
        (record {
          wide = wide;
          pair_elsewhere =
              λ k f h other. ground (arith, lookup-insert k gid g gm.groups, v.pair k f);
          inhabited = λ f h. ground (arith, lookup-insert gid gid g gm.groups);
        })
]

join_group-Sized :
    (gid target : ℕ) (gm : GroupManager) → AlmostSized gid gm → Sized (join_group gid target gm).0
unfolding join_group
join_group-Sized gid target gm v = record {
  pair = λ k f h. elim (Option-cases (lookup gid gm.groups)) [
    | inl gone ↦ ground (arith, v.pair_elsewhere k f)
    | inr (g, found) ↦ ground (
      arith,
      v.wide,
      v.inhabited g found,
      v.pair_elsewhere k f,
      lookup-insert k gid (record g { members = g.members ++ target ∷ [] }) gm.groups,
      length-append g.members (target ∷ []),
    )
  ];
}

accept_live-Sized :
    (target : ℕ) (inv : GroupInvite) (gm : GroupManager)
    → Sized gm
    → 2 ≤ gm.max_members
    → Sized (accept_live target inv gm).0
unfolding accept_live
accept_live-Sized target inv gm v wide = elim (Option-cases (lookup target gm.membership)) [
  | inr (gid, old) ↦ rw (old, accept_live) v
  | inl free ↦
      rw (free, accept_live)
        (join_group-Sized _ target _ (found_group-AlmostSized inv.inviter_id gm v wide))
]

pub accept-Sized :
    (now : ℕ) (p : Option Player) (gm : GroupManager)
    → Sized gm
    → 2 ≤ gm.max_members
    → Sized (accept now p gm).0
unfolding accept
accept-Sized now none gm v wide = v
accept-Sized now (some p) gm v wide = elim (Option-cases (lookup p.session_id gm.invites)) [
  | inl none_pending ↦ rw (none_pending, accept) v
  | inr (inv, pending) ↦
      rw (pending, accept)
        (elim (Bool-cases (ltb inv.expires_at now)) [
          | inl late ↦ rw late (record { pair = v.pair })
          | inr live ↦
              rw live (accept_live-Sized p.session_id inv _ (record { pair = v.pair }) wide)
        ])
]

join_group_places :
    (gid target k : ℕ) (gm : GroupManager)
    → (join_group gid target gm).1 ≡ ok k
    → (gid ≡ k) × ((join_group gid target gm).0.membership ≡ insert target gid gm.membership)
unfolding join_group
join_group_places gid target k gm h = ground arith

found_group_places :
    (inviter : ℕ) (gm : GroupManager)
    → lookup inviter (found_group inviter gm).0.membership ≡ some (found_group inviter gm).1
unfolding found_group
found_group_places inviter gm =
    ground (arith, lookup-insert_self inviter ((gm.next_id + 1) % u32_mod) gm.membership)

accept_live_joins :
    (target gid : ℕ) (inv : GroupInvite) (gm : GroupManager)
    → inv.inviter_id ≢ target
    → (accept_live target inv gm).1 ≡ ok gid
    → (lookup target (accept_live target inv gm).0.membership ≡ some gid)
      × (lookup inv.inviter_id (accept_live target inv gm).0.membership ≡ some gid)
unfolding accept_live
accept_live_joins target gid inv gm other h =
    let (gm', k) = found_group inv.inviter_id gm in
    ground (
      arith,
      join_group_places k target gid gm',
      found_group_places inv.inviter_id gm,
      lookup-insert target target k gm'.membership,
      lookup-insert inv.inviter_id target k gm'.membership,
    )

-- While the maps are in step, after an `accept` of an invitation that succeeds, the session and the
-- session that invited it are both entered in the group whose number is returned.
pub accept_joins :
    (now gid : ℕ) (p : Player) (inv : GroupInvite) (gm : GroupManager)
    → Linked gm
    → lookup p.session_id gm.invites ≡ some inv
    → (accept now (some p) gm).1 ≡ ok gid
    → (lookup p.session_id (accept now (some p) gm).0.membership ≡ some gid)
      × (lookup inv.inviter_id (accept now (some p) gm).0.membership ≡ some gid)
unfolding accept
accept_joins now gid p inv gm v pending h =
    let gm' : GroupManager = record gm { invites = delete p.session_id gm.invites } in
    ground (
      arith,
      accept_live_joins p.session_id gid inv gm' (v.invite_fits p.session_id inv pending).other,
    )
