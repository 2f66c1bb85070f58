-- ===== src/Game/Groups/Join.antt =====
-- A session that joins a group of zone-server/internal/game/groups.go, and a group that is made.
use zone.Prelude.{
  ℕ, ◌+◌, ◌<◌, ◌≡◌, true, false, none, some, [], ◌∷◌, ◌++◌, arith, length, length-append, contains,
  contains-append, append_one-NoRepeats, ◌==◌, comparable_nat, Bool-cases, inl, inr,
}
use zone.Prelude.Map.{lookup, insert, lookup-insert, insert-Distinct}
use zone.Game.Groups.{Group, GroupManager}
use zone.Game.Groups.Linked.{GroupFits, MemberOf, Linked}

abbrev pub extended : Group → ℕ → Group
extended g target = record g { members = g.members ++ target ∷ [] }

abbrev pub joined : ℕ → ℕ → Group → GroupManager → GroupManager
joined gid target g gm = record gm {
  groups = insert gid (extended g target) gm.groups;
  membership = insert target gid gm.membership;
}

module _ (gid target : ℕ) (g : Group) (gm : GroupManager) (v : Linked gm)
    (found : lookup gid gm.groups ≡ some g) (free : lookup target gm.membership ≡ none)
    (room : length g.members < gm.max_members) where
  not_yet_member : contains target g.members ≡ false
  not_yet_member = elim (Bool-cases (contains target g.members)) [
    | inl yes_member ↦ absurd (ground (arith, v.entered gid g target found yes_member))
    | inr other ↦ other
  ]

  joined-fits :
      (k : ℕ) (f : Group)
      → lookup k (joined gid target g gm).groups ≡ some f
      → GroupFits (joined gid target g gm) k f
  joined-fits k f h = ground (
    arith,
    lookup-insert k gid (extended g target) gm.groups,
    v.fits gid g found,
    v.fits k f,
    append_one-NoRepeats target g.members,
    not_yet_member,
    contains-append g.leader_id g.members (target ∷ []),
    length-append g.members (target ∷ []),
  )

  joined-entered :
      (k : ℕ) (f : Group) (s : ℕ)
      → lookup k (joined gid target g gm).groups ≡ some f
      → contains s f.members ≡ true
      → lookup s (joined gid target g gm).membership ≡ some k
  joined-entered k f s h c = ground (
    arith,
    lookup-insert k gid (extended g target) gm.groups,
    lookup-insert s target gid gm.membership,
    contains-append s g.members (target ∷ []),
    v.entered gid g s found,
    v.entered k f s,
  )

  joined-MemberOf :
      (s k : ℕ)
      → lookup s (joined gid target g gm).membership ≡ some k
      → MemberOf (joined gid target g gm) s k
  joined-MemberOf s k h = elim (Bool-cases (gid == k)) [
    | inl same ↦ record {
      group = extended g target;
      found = ground (arith, lookup-insert k gid (extended g target) gm.groups);
      holds = ground (
        arith,
        lookup-insert s target gid gm.membership,
        contains-append s g.members (target ∷ []),
        v.member_of s k,
      );
    }
    | inr other ↦
        let old : lookup s gm.membership ≡ some k =
          ground (arith, lookup-insert s target gid gm.membership) in
        record {
          group = (v.member_of s k old).group;
          found = ground (
            arith,
            lookup-insert k gid (extended g target) gm.groups,
            (v.member_of s k old).found,
          );
          holds = (v.member_of s k old).holds;
        }
  ]

  pub joined-Linked : Linked (joined gid target g gm)
  joined-Linked = record {
    distinct_groups = insert-Distinct gid (extended g target) gm.groups v.distinct_groups;
    distinct_membership = insert-Distinct target gid gm.membership v.distinct_membership;
    distinct_invites = v.distinct_invites;
    capacity = v.capacity;
    fits = joined-fits;
    entered = joined-entered;
    member_of = joined-MemberOf;
    invite_fits = v.invite_fits;
  }

-- A new group of one, for an inviter who is in none.
abbrev pub started : ℕ → ℕ → GroupManager → GroupManager
started inviter gid gm = record gm {
  next_id = gid;
  groups = insert gid (record { id = gid; leader_id = inviter; members = inviter ∷ [] }) gm.groups;
  membership = insert inviter gid gm.membership;
}

module _ (inviter gid : ℕ) (gm : GroupManager) (v : Linked gm)
    (free : lookup inviter gm.membership ≡ none) (fresh : gid ≡ gm.next_id + 1) where
  abbrev pub solo : Group
  solo = record { id = gid; leader_id = inviter; members = inviter ∷ [] }

  started-fits :
      (k : ℕ) (f : Group)
      → lookup k (started inviter gid gm).groups ≡ some f
      → GroupFits (started inviter gid gm) k f
  started-fits k f h = ground (arith, lookup-insert k gid solo gm.groups, v.fits k f, v.capacity)

  started-entered :
      (k : ℕ) (f : Group) (s : ℕ)
      → lookup k (started inviter gid gm).groups ≡ some f
      → contains s f.members ≡ true
      → lookup s (started inviter gid gm).membership ≡ some k
  started-entered k f s h c = ground (
    arith,
    lookup-insert k gid solo gm.groups,
    lookup-insert s inviter gid gm.membership,
    v.entered k f s,
  )

  started-MemberOf :
      (s k : ℕ)
      → lookup s (started inviter gid gm).membership ≡ some k
      → MemberOf (started inviter gid gm) s k
  started-MemberOf s k h = elim (Bool-cases (inviter == s)) [
    | inl same ↦ record {
      group = solo;
      found =
          ground
            (arith, lookup-insert s inviter gid gm.membership, lookup-insert k gid solo gm.groups);
      holds = ground arith;
    }
    | inr other ↦
        let old : lookup s gm.membership ≡ some k =
          ground (arith, lookup-insert s inviter gid gm.membership) in
        let place = v.member_of s k old in
        record {
          group = place.group;
          found =
              ground (arith, lookup-insert k gid solo gm.groups, place.found, v.fits k place.group);
          holds = place.holds;
        }
  ]

  pub started-Linked : Linked (started inviter gid gm)
  started-Linked = record {
    distinct_groups = insert-Distinct gid solo gm.groups v.distinct_groups;
    distinct_membership = insert-Distinct inviter gid gm.membership v.distinct_membership;
    distinct_invites = v.distinct_invites;
    capacity = v.capacity;
    fits = started-fits;
    entered = started-entered;
    member_of = started-MemberOf;
    invite_fits = v.invite_fits;
  }
