-- ===== src/Game/Groups/Depart.antt =====
-- A group of zone-server/internal/game/groups.go that a member has left: dissolved or reduced.
use zone.Prelude.{
  ℕ, ◌≡◌, ◌≢◌, refl, true, false, not, none, some, List, [], ◌∷◌, arith, length-keep_if, contains,
  without, contains-without, without-NoRepeats, ◌==◌, comparable_nat, if◌then◌else◌, Bool-cases,
  inl, inr,
}
use zone.Prelude.Map.{
  Map, lookup, insert, delete, Distinct, lookup-insert, lookup-delete, insert-Distinct,
  delete-Distinct,
}
use zone.Game.Groups.{Group, GroupManager, delete_all}
use zone.Game.Groups.Linked.{GroupFits, MemberOf, Linked}

lookup-delete_all :
    (j : ℕ) (xs : List ℕ) (m : Map ℕ ℕ)
    → lookup j (delete_all xs m) ≡ (if contains j xs then none else lookup j m)
unfolding delete_all
lookup-delete_all j [] m = refl
lookup-delete_all j (x ∷ xs) m =
    ground (arith, lookup-delete_all j xs (delete x m), lookup-delete j x m)

delete_all-Distinct : (xs : List ℕ) (m : Map ℕ ℕ) → Distinct m → Distinct (delete_all xs m)
unfolding delete_all
delete_all-Distinct [] m d = d
delete_all-Distinct (x ∷ xs) m d = delete_all-Distinct xs (delete x m) (delete-Distinct x m d)

abbrev pub dissolved : ℕ → ℕ → Group → GroupManager → GroupManager
dissolved sid gid g gm = record gm {
  membership = delete_all (without sid g.members) (delete sid gm.membership);
  groups = delete gid gm.groups;
}

abbrev pub shrunk : ℕ → Group → Group
shrunk sid g = record g { members = without sid g.members }

abbrev pub reduced : ℕ → ℕ → Group → GroupManager → GroupManager
reduced sid gid g gm = record gm {
  membership = delete sid gm.membership;
  groups = insert gid (shrunk sid g) gm.groups;
}

module _ (sid gid : ℕ) (g : Group) (gm : GroupManager) (v : Linked gm)
    (place : lookup sid gm.membership ≡ some gid) (found : lookup gid gm.groups ≡ some g) where
  pub lookup-dissolved :
      (s : ℕ)
      → lookup s (dissolved sid gid g gm).membership ≡ (
          if contains s (without sid g.members)
          then none
          else if sid == s
          then none
          else lookup s gm.membership)
  lookup-dissolved s = ground (
    arith,
    lookup-delete_all s (without sid g.members) (delete sid gm.membership),
    lookup-delete s sid gm.membership,
  )

  dissolved-entered :
      (k : ℕ) (f : Group) (s : ℕ)
      → lookup k (dissolved sid gid g gm).groups ≡ some f
      → contains s f.members ≡ true
      → lookup s (dissolved sid gid g gm).membership ≡ some k
  dissolved-entered k f s h c = ground (
    arith,
    lookup-delete k gid gm.groups,
    lookup-dissolved s,
    contains-without s sid g.members,
    v.entered gid g s found,
    v.entered k f s,
  )

  -- Whoever is still entered is in another group.
  dissolved_other :
      (s k : ℕ)
      → lookup s (dissolved sid gid g gm).membership ≡ some k
      → (lookup s gm.membership ≡ some k) × (gid ≢ k)
  dissolved_other s k h =
      let old : lookup s gm.membership ≡ some k = ground (arith, lookup-dissolved s) in
      (
        old,
        λ same.
            ground
              (arith, lookup-dissolved s, contains-without s sid g.members, v.member_of s k old),
      )

  dissolved-MemberOf :
      (s k : ℕ)
      → lookup s (dissolved sid gid g gm).membership ≡ some k
      → MemberOf (dissolved sid gid g gm) s k
  dissolved-MemberOf s k h =
      let (old, other) = dissolved_other s k h in
      record {
        group = (v.member_of s k old).group;
        found = ground (arith, lookup-delete k gid gm.groups, (v.member_of s k old).found);
        holds = (v.member_of s k old).holds;
      }

  pub dissolved-Linked : Linked (dissolved sid gid g gm)
  dissolved-Linked = record {
    distinct_groups = delete-Distinct gid gm.groups v.distinct_groups;
    distinct_membership =
        delete_all-Distinct (without sid g.members) _
          (delete-Distinct sid gm.membership v.distinct_membership);
    distinct_invites = v.distinct_invites;
    capacity = v.capacity;
    fits = λ k f h. ground (arith, lookup-delete k gid gm.groups, v.fits k f);
    entered = dissolved-entered;
    member_of = dissolved-MemberOf;
    invite_fits = v.invite_fits;
  }

  module _ (follows : (g.leader_id == sid) ≡ false) where
    reduced-fits :
        (k : ℕ) (f : Group)
        → lookup k (reduced sid gid g gm).groups ≡ some f
        → GroupFits (reduced sid gid g gm) k f
    reduced-fits k f h = ground (
      arith,
      lookup-insert k gid (shrunk sid g) gm.groups,
      v.fits gid g found,
      v.fits k f,
      without-NoRepeats sid g.members,
      contains-without g.leader_id sid g.members,
      length-keep_if (λ (x : ℕ). not (x == sid)) g.members,
    )

    reduced-entered :
        (k : ℕ) (f : Group) (s : ℕ)
        → lookup k (reduced sid gid g gm).groups ≡ some f
        → contains s f.members ≡ true
        → lookup s (reduced sid gid g gm).membership ≡ some k
    reduced-entered k f s h c = ground (
      arith,
      lookup-insert k gid (shrunk sid g) gm.groups,
      lookup-delete s sid gm.membership,
      contains-without s sid g.members,
      v.entered gid g s found,
      v.entered k f s,
    )

    reduced-MemberOf :
        (s k : ℕ)
        → lookup s (reduced sid gid g gm).membership ≡ some k
        → MemberOf (reduced sid gid g gm) s k
    reduced-MemberOf s k h =
        let old : lookup s gm.membership ≡ some k =
          ground (arith, lookup-delete s sid gm.membership) in
        elim (Bool-cases (gid == k)) [
          | inl same ↦ record {
            group = shrunk sid g;
            found = ground (arith, lookup-insert k gid (shrunk sid g) gm.groups);
            holds = ground (
              arith,
              lookup-delete s sid gm.membership,
              contains-without s sid g.members,
              v.member_of s k old,
            );
          }
          | inr other ↦ record {
            group = (v.member_of s k old).group;
            found =
                ground (
                  arith,
                  lookup-insert k gid (shrunk sid g) gm.groups,
                  (v.member_of s k old).found,
                );
            holds = (v.member_of s k old).holds;
          }
        ]

    pub reduced-Linked : Linked (reduced sid gid g gm)
    reduced-Linked = record {
      distinct_groups = insert-Distinct gid (shrunk sid g) gm.groups v.distinct_groups;
      distinct_membership = delete-Distinct sid gm.membership v.distinct_membership;
      distinct_invites = v.distinct_invites;
      capacity = v.capacity;
      fits = reduced-fits;
      entered = reduced-entered;
      member_of = reduced-MemberOf;
      invite_fits = v.invite_fits;
    }
