-- ===== src/Game/Groups.antt =====
-- zone-server/internal/game/groups.go: parties and invitations (`GroupManager`).
-- Times are counts of nanoseconds. Of a session the manager reads the number and the name; a
-- pointer to a session that may be nil is an `Option`.
pub mod Linked
mod Join
pub mod Accept
mod Depart
pub mod Leave
pub mod Inv
pub mod History
pub mod Invites
mod Examples
use Prim.Native.String.{String}
use zone.Prelude.{
  ℕ, ◌+◌, ◌%◌, Bool, true, false, not, ◌&&◌, ◌||◌, Option, none, some, List, [], ◌∷◌, ◌++◌, length,
  without, leb, ltb, ◌==◌, comparable_nat, if◌then◌else◌,
}
use zone.Prelude.Map.{Map, lookup, insert, delete, sweep}

pub data GroupError : Type 0 where
  group_full no_invite already_in self_invite invite_pending : GroupError

pub record Group : Type 0 where
  pub id : ℕ
  pub leader_id : ℕ
  pub members : List ℕ

pub record GroupInvite : Type 0 where
  pub inviter_id : ℕ
  pub target_id : ℕ
  pub target_name : String
  pub expires_at : ℕ

pub record GroupManager : Type 0 where
  pub groups : Map ℕ Group
  pub membership : Map ℕ ℕ
  pub invites : Map ℕ GroupInvite
  pub next_id : ℕ
  pub max_members : ℕ
  pub invite_ttl : ℕ

pub record Player : Type 0 where
  pub session_id : ℕ
  pub name : String

abbrev pub max_group_members : ℕ
max_group_members = 8

abbrev pub u32_mod : ℕ
u32_mod = 4_294_967_296

-- Counts that are not positive are 0 here.
unfoldable pub new_group_manager : ℕ → ℕ → GroupManager
new_group_manager max_members invite_ttl =
    let max = if leb max_members 0 then 4 else max_members in
    record {
      groups = [];
      membership = [];
      invites = [];
      next_id = 0;
      max_members = if ltb max_group_members max then max_group_members else max;
      invite_ttl = if leb invite_ttl 0 then 60_000_000_000 else invite_ttl;
    }

record_invite : ℕ → Player → Player → GroupManager → GroupManager
record_invite now inviter target gm = record gm {
  invites = insert target.session_id invitation gm.invites;
}
  where
    invitation : GroupInvite
    invitation = record {
      inviter_id = inviter.session_id;
      target_id = target.session_id;
      target_name = target.name;
      expires_at = now + gm.invite_ttl;
    }

-- A pending invitation that has not run out by `now`.
abbrev pub is_pending : ℕ → Option GroupInvite → Bool
is_pending now none = false
is_pending now (some inv) = ltb now inv.expires_at

unfoldable pub invite :
    ℕ → Option Player → Option Player → GroupManager → GroupManager × Option GroupError
unfolding record_invite
invite now none target gm = (gm, some no_invite)
invite now (some a) none gm = (gm, some no_invite)
invite now (some a) (some b) gm =
    if a.session_id == 0 || b.session_id == 0 || a.session_id == b.session_id
    then (gm, some self_invite)
    else if is_pending now (lookup b.session_id gm.invites)
    then (gm, some invite_pending)
    else (record_invite now a b gm, none)

pub invite_for : ℕ → GroupManager → Option GroupInvite
invite_for session_id gm = lookup session_id gm.invites

unfoldable pub decline : Option Player → GroupManager → GroupManager × Option GroupInvite
decline none gm = (gm, none)
decline (some p) gm = elim (lookup p.session_id gm.invites) [
  | none ↦ (gm, none)
  | some inv ↦ (record gm { invites = delete p.session_id gm.invites }, some inv)
]

pub data Joined : Type 0 where
  ok : ℕ → Joined
  err : GroupError → Joined

-- The group of the inviter, made for it if there is none.
found_group : ℕ → GroupManager → GroupManager × ℕ
found_group inviter gm = elim (lookup inviter gm.membership) [
  | some gid ↦ (gm, gid)
  | none ↦
      let gid = (gm.next_id + 1) % u32_mod in
      (
        record gm {
          next_id = gid;
          groups =
              insert gid (record { id = gid; leader_id = inviter; members = inviter ∷ [] })
                gm.groups;
          membership = insert inviter gid gm.membership;
        },
        gid,
      )
]

join_group : ℕ → ℕ → GroupManager → GroupManager × Joined
join_group gid target gm = elim (lookup gid gm.groups) [
  | none ↦ (gm, err no_invite)
  | some g ↦ if leb gm.max_members (length g.members) then (gm, err group_full) else (
    record gm {
      groups = insert gid (record g { members = g.members ++ target ∷ [] }) gm.groups;
      membership = insert target gid gm.membership;
    },
    ok gid,
  )
]

-- What `accept` does once the invitation has been taken out and has not run out.
accept_live : ℕ → GroupInvite → GroupManager → GroupManager × Joined
unfolding found_group join_group
accept_live target inv gm = elim (lookup target gm.membership) [
  | some gid ↦ (gm, err already_in)
  | none ↦ let (gm', gid) = found_group inv.inviter_id gm in join_group gid target gm'
]

unfoldable pub accept : ℕ → Option Player → GroupManager → GroupManager × Joined
unfolding accept_live
accept now none gm = (gm, err no_invite)
accept now (some p) gm = elim (lookup p.session_id gm.invites) [
  | none ↦ (gm, err no_invite)
  | some inv ↦
      let gm' = record gm { invites = delete p.session_id gm.invites } in
      if ltb inv.expires_at now then (gm', err no_invite) else accept_live p.session_id inv gm'
]

pub delete_all : List ℕ → Map ℕ ℕ → Map ℕ ℕ
delete_all [] m = m
delete_all (x ∷ xs) m = delete_all xs (delete x m)

-- What `leave` returns beside the new state: the group and its members before the change.
pub record Left : Type 0 where
  pub group_id : ℕ
  pub roster : List ℕ
  pub was_member : Bool

-- The group `g` under `gid` after `session_id` has left it.
shrink_group : ℕ → ℕ → Group → GroupManager → GroupManager
unfolding delete_all
shrink_group session_id gid g gm =
    let remaining = without session_id g.members in
    if g.leader_id == session_id || leb (length remaining) 1
    then record gm {
      membership = delete_all remaining gm.membership;
      groups = delete gid gm.groups;
    }
    else record gm { groups = insert gid (record g { members = remaining }) gm.groups }

unfoldable pub leave : Option Player → GroupManager → GroupManager × Left
unfolding shrink_group
leave none gm = (gm, record { group_id = 0; roster = []; was_member = false })
leave (some p) gm = elim (lookup p.session_id gm.membership) [
  | none ↦ (gm, record { group_id = 0; roster = []; was_member = false })
  | some gid ↦
      let gm' = record gm { membership = delete p.session_id gm.membership } in
      elim (lookup gid gm.groups) [
        | none ↦ (gm', record { group_id = gid; roster = p.session_id ∷ []; was_member = true })
        | some g ↦ (
          shrink_group p.session_id gid g gm',
          record { group_id = gid; roster = g.members; was_member = true },
        )
      ]
]

pub group_id : ℕ → GroupManager → Option ℕ
group_id session_id gm = lookup session_id gm.membership

pub members : ℕ → GroupManager → List ℕ
members gid gm = elim (lookup gid gm.groups) [ none ↦ [] | some g ↦ g.members ]

abbrev same_group_id : Option ℕ → Option ℕ → Bool
same_group_id none b = false
same_group_id (some a) none = false
same_group_id (some a) (some b) = a == b

unfoldable pub is_same_group : ℕ → ℕ → GroupManager → Bool
is_same_group a b gm =
    if a == 0 || b == 0
    then false
    else same_group_id (lookup a gm.membership) (lookup b gm.membership)

-- `Tick` drops the invitations that have run out.
abbrev pub keep_unexpired : ℕ → ℕ → GroupInvite → Option GroupInvite
keep_unexpired now id inv = if ltb inv.expires_at now then none else some inv

unfoldable pub tick : ℕ → GroupManager → GroupManager
tick now gm = record gm { invites = sweep (keep_unexpired now) gm.invites }

abbrev pub keep_others : ℕ → ℕ → GroupInvite → Option GroupInvite
keep_others session_id id inv =
    if id == session_id || inv.inviter_id == session_id then none else some inv

unfoldable pub forget_session : ℕ → GroupManager → GroupManager
forget_session session_id gm =
    if session_id == 0
    then gm
    else record gm { invites = sweep (keep_others session_id) gm.invites }
