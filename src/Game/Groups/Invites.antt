-- ===== src/Game/Groups/Invites.antt =====
-- How long an invitation of zone-server/internal/game/groups.go lasts.
use mathlib.Core.Option
use zone.Prelude.{
  ℕ, ◌+◌, ◌≤◌, ◌<◌, ◌≡◌, ◌≢◌, ◌⊎◌, Option, none, some, arith, comparable_nat, Option-cases, inl,
  inr,
}
use zone.Prelude.Map.{
  lookup, delete, sweep, lookup-insert, lookup-delete, lookup-sweep, sweep-Distinct,
}
use zone.Game.Groups.{
  GroupInvite, GroupManager, Player, record_invite, invite, decline, accept, accept_live,
  found_group, join_group, leave, shrink_group, tick, forget_session, keep_unexpired, keep_others,
}
use zone.Game.Groups.Linked.{Linked}
use zone.Game.Groups.Inv.{Call, invites, declines, accepts, leaves, ticks, forgets, step}

abbrev pub IsOther : ℕ → Option Player → Type 0
IsOther t none = Unit {0}
IsOther t (some p) = p.session_id ≢ t

-- The calls that have no say over the invitation `inv` of session `t`: an invitation to another
-- session, or to `t` before `inv` ends, a tick until then, and what others answer, leave or depart.
abbrev pub Spares : ℕ → GroupInvite → Call → Type 0
Spares t inv (invites now a b) = IsOther t b ⊎ (now < inv.expires_at)
Spares t inv (declines p) = IsOther t p
Spares t inv (accepts now p) = IsOther t p
Spares t inv (leaves p) = Unit {0}
Spares t inv (ticks now) = now ≤ inv.expires_at
Spares t inv (forgets id) = (id ≢ t) × (id ≢ inv.inviter_id)

accept_live_invites :
    (target : ℕ) (inv : GroupInvite) (gm : GroupManager)
    → (accept_live target inv gm).0.invites ≡ gm.invites
unfolding accept_live found_group join_group
accept_live_invites target inv gm = ground arith

leave_invites : (p : Option Player) (gm : GroupManager) → (leave p gm).0.invites ≡ gm.invites
unfolding leave shrink_group
leave_invites p gm = ground arith

invite_spares :
    (now t : ℕ) (a b : Option Player) (inv : GroupInvite) (gm : GroupManager)
    → lookup t gm.invites ≡ some inv
    → IsOther t b ⊎ (now < inv.expires_at)
    → lookup t (invite now a b gm).0.invites ≡ some inv
unfolding invite record_invite
invite_spares now t none b inv gm h soon = h
invite_spares now t (some a) none inv gm h soon = h
invite_spares now t (some a) (some b) inv gm h soon = ground (
  arith,
  lookup-insert t b.session_id
      (record {
        inviter_id = a.session_id;
        target_id = b.session_id;
        target_name = b.name;
        expires_at = now + gm.invite_ttl;
      })
      gm.invites,
)

accept_spares :
    (now t : ℕ) (p : Option Player) (inv : GroupInvite) (gm : GroupManager)
    → lookup t gm.invites ≡ some inv
    → IsOther t p
    → lookup t (accept now p gm).0.invites ≡ some inv
unfolding accept
accept_spares now t none inv gm h other = h
accept_spares now t (some p) inv gm h other = elim (Option-cases (lookup p.session_id gm.invites)) [
  | inl gone ↦ ground arith
  | inr (own, found) ↦ ground (
    arith,
    lookup-delete t p.session_id gm.invites,
    accept_live_invites p.session_id own (record gm { invites = delete p.session_id gm.invites }),
  )
]

-- While the maps are in step, an invitation stays as it is through every call but these: its target
-- answers it, an invitation to its target comes at its end or later, a tick comes after its end, or
-- its target or its inviter departs.
pub step-Spares_invite :
    (gm : GroupManager) (t : ℕ) (inv : GroupInvite) (c : Call)
    → Linked gm
    → lookup t gm.invites ≡ some inv
    → Spares t inv c
    → lookup t (step gm c).invites ≡ some inv
unfolding step decline tick forget_session Option.bind
step-Spares_invite gm t inv (invites now a b) v h s = invite_spares now t a b inv gm h s
step-Spares_invite gm t inv (declines none) v h s = h
step-Spares_invite gm t inv (declines (some p)) v h s =
    ground (arith, lookup-delete t p.session_id gm.invites)
step-Spares_invite gm t inv (accepts now p) v h s = accept_spares now t p inv gm h s
step-Spares_invite gm t inv (leaves p) v h s = ground (arith, leave_invites p gm)
step-Spares_invite gm t inv (ticks now) v h s =
    ground (arith, lookup-sweep (keep_unexpired now) t gm.invites v.distinct_invites)
step-Spares_invite gm t inv (forgets id) v h s =
    ground (arith, lookup-sweep (keep_others id) t gm.invites v.distinct_invites)

-- While the maps are in step, an invitation that is found after a session has departed and a tick
-- has come does not name that session as target or as inviter, and has not run out.
pub forget_session-gone :
    (gm : GroupManager) (id t now : ℕ) (inv : GroupInvite)
    → Linked gm
    → id ≢ 0
    → lookup t (tick now (forget_session id gm)).invites ≡ some inv
    → (t ≢ id) × (inv.inviter_id ≢ id) × (now ≤ inv.expires_at)
unfolding tick forget_session Option.bind
forget_session-gone gm id t now inv v real h =
    let left = sweep-Distinct (keep_others id) gm.invites v.distinct_invites in
    ground (
      arith,
      lookup-sweep (keep_unexpired now) t (sweep (keep_others id) gm.invites) left,
      lookup-sweep (keep_others id) t gm.invites v.distinct_invites,
    )
