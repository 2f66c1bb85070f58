-- ===== src/Game/Groups/Linked.antt =====
-- How the maps of `GroupManager` (zone-server/internal/game/groups.go) hang together.
use zone.Prelude.{ℕ, ◌≤◌, ◌≡◌, ◌≢◌, true, some, length, contains, NoRepeats, comparable_nat}
use zone.Prelude.Map.{lookup, Distinct}
use zone.Game.Groups.{Group, GroupInvite, GroupManager}

-- A group stands under its own number, which has been given out, with its leader among members
-- that are all different and within the limit.
pub record GroupFits (gm : GroupManager) (gid : ℕ) (g : Group) : Type 0 where
  pub keyed : g.id ≡ gid
  pub given_out : gid ≤ gm.next_id
  pub no_repeats : NoRepeats g.members
  pub leads : contains g.leader_id g.members ≡ true
  pub within : length g.members ≤ gm.max_members

-- An invitation stands under its target, who is not its inviter.
pub record InviteFits (target : ℕ) (inv : GroupInvite) : Type 0 where
  pub keyed : inv.target_id ≡ target
  pub other : inv.inviter_id ≢ target

-- The group that a session is entered in has it for a member.
pub record MemberOf (gm : GroupManager) (session_id gid : ℕ) : Type 0 where
  pub group : Group
  pub found : lookup gid gm.groups ≡ some group
  pub holds : contains session_id group.members ≡ true

pub record Linked (gm : GroupManager) : Type 0 where
  pub distinct_groups : Distinct gm.groups
  pub distinct_membership : Distinct gm.membership
  pub distinct_invites : Distinct gm.invites
  pub capacity : 1 ≤ gm.max_members
  pub fits : (gid : ℕ) (g : Group) → lookup gid gm.groups ≡ some g → GroupFits gm gid g
  pub entered :
      (gid : ℕ) (g : Group) (s : ℕ)
      → lookup gid gm.groups ≡ some g
      → contains s g.members ≡ true
      → lookup s gm.membership ≡ some gid
  pub member_of : (s gid : ℕ) → lookup s gm.membership ≡ some gid → MemberOf gm s gid
  pub invite_fits :
      (target : ℕ) (inv : GroupInvite) → lookup target gm.invites ≡ some inv → InviteFits target inv

-- Every group has at least two members.
pub record Sized (gm : GroupManager) : Type 0 where
  pub pair : (gid : ℕ) (g : Group) → lookup gid gm.groups ≡ some g → 2 ≤ length g.members
