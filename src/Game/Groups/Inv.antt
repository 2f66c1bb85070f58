-- ===== src/Game/Groups/Inv.antt =====
-- Each call of zone-server/internal/game/groups.go keeps the parties in order.
use zone.Prelude.{
  ℕ, ◌+◌, ◌≤◌, ◌<◌, ◌≡◌, ◌≢◌, ◌||◌, Option, none, some, arith, ◌==◌, comparable_nat, Bool-cases,
  Option-cases, inl, inr,
}
use zone.Prelude.Map.{
  Map, lookup, sweep, Distinct, insert-Distinct, lookup-insert, lookup-sweep, sweep-Distinct,
}
use mathlib.Core.Option
use zone.Game.Groups.{
  GroupInvite, GroupManager, Player, u32_mod, record_invite, invite, is_pending, decline, accept,
  accept_live, found_group, join_group, leave, shrink_group, tick, forget_session, keep_unexpired,
  keep_others,
}
use zone.Game.Groups.Linked.{InviteFits, Linked, Sized}
use zone.Game.Groups.Accept.{accept-Linked, accept-Sized, uninvited-Linked}
use zone.Game.Groups.Leave.{leave-Linked, leave-Sized}

-- The calls that change the manager.
pub data Call : Type 0 where
  invites : ℕ → Option Player → Option Player → Call
  declines : Option Player → Call
  accepts : ℕ → Option Player → Call
  leaves : Option Player → Call
  ticks : ℕ → Call
  forgets : ℕ → Call

unfoldable pub step : GroupManager → Call → GroupManager
step gm (invites now a b) = (invite now a b gm).0
step gm (declines p) = (decline p gm).0
step gm (accepts now p) = (accept now p gm).0
step gm (leaves p) = (leave p gm).0
step gm (ticks now) = tick now gm
step gm (forgets id) = forget_session id gm

-- Other invitations, the same parties.
reinvited-Linked :
    (gm : GroupManager) (m : Map ℕ GroupInvite)
    → Linked gm
    → Distinct m
    → ((t : ℕ) (inv : GroupInvite) → lookup t m ≡ some inv → InviteFits t inv)
    → Linked (record gm { invites = m })
reinvited-Linked gm m v d f = record {
  distinct_groups = v.distinct_groups;
  distinct_membership = v.distinct_membership;
  distinct_invites = d;
  capacity = v.capacity;
  fits = λ k g h. ground (arith, v.fits k g h);
  entered = v.entered;
  member_of = λ s k h. record {
    group = (v.member_of s k h).group;
    found = (v.member_of s k h).found;
    holds = (v.member_of s k h).holds;
  };
  invite_fits = f;
}

record_invite-Linked :
    (now : ℕ) (a b : Player) (gm : GroupManager)
    → Linked gm
    → a.session_id ≢ b.session_id
    → Linked (record_invite now a b gm)
unfolding record_invite
record_invite-Linked now a b gm v other =
    reinvited-Linked gm _ v (insert-Distinct b.session_id _ gm.invites v.distinct_invites)
      λ t inv h. ground (
        arith,
        lookup-insert t b.session_id
            (record {
              inviter_id = a.session_id;
              target_id = b.session_id;
              target_name = b.name;
              expires_at = now + gm.invite_ttl;
            })
            gm.invites,
        v.invite_fits t inv,
      )

invite-Linked :
    (now : ℕ) (a b : Option Player) (gm : GroupManager) → Linked gm → Linked (invite now a b gm).0
unfolding invite
invite-Linked now none b gm v = v
invite-Linked now (some a) none gm v = v
invite-Linked now (some a) (some b) gm v =
    elim (Bool-cases (a.session_id == 0 || b.session_id == 0 || a.session_id == b.session_id)) [
      | inl self ↦ rw self v
      | inr other ↦ rw other (elim (Bool-cases (is_pending now (lookup b.session_id gm.invites))) [
        | inl waits ↦ rw waits v
        | inr open_seat ↦ rw open_seat (record_invite-Linked now a b gm v (ground arith))
      ])
    ]

decline-Linked : (p : Option Player) (gm : GroupManager) → Linked gm → Linked (decline p gm).0
unfolding decline
decline-Linked none gm v = v
decline-Linked (some p) gm v = elim (Option-cases (lookup p.session_id gm.invites)) [
  | inl gone ↦ rw (gone, decline) v
  | inr (inv, h) ↦ rw (h, decline) (uninvited-Linked p.session_id gm v)
]

swept-Linked :
    (f : ℕ → GroupInvite → Option GroupInvite) (gm : GroupManager)
    → Linked gm
    → ((t : ℕ) (inv w : GroupInvite) → f t inv ≡ some w → w ≡ inv)
    → Linked (record gm { invites = sweep f gm.invites })
unfolding Option.bind
swept-Linked f gm v same =
    reinvited-Linked gm _ v (sweep-Distinct f gm.invites v.distinct_invites) λ t inv h.
      elim (Option-cases (lookup t gm.invites)) [
        | inl gone ↦ absurd (ground (arith, lookup-sweep f t gm.invites v.distinct_invites))
        | inr (old, found) ↦ ground (
          arith,
          lookup-sweep f t gm.invites v.distinct_invites,
          same t old inv,
          v.invite_fits t old,
        )
      ]

-- Every call keeps the maps in step, while group numbers are left.
pub step-Linked :
    (gm : GroupManager) (c : Call) → Linked gm → gm.next_id + 1 < u32_mod → Linked (step gm c)
unfolding step tick forget_session
step-Linked gm (invites now a b) v small = invite-Linked now a b gm v
step-Linked gm (declines p) v small = decline-Linked p gm v
step-Linked gm (accepts now p) v small = accept-Linked now p gm v small
step-Linked gm (leaves p) v small = leave-Linked p gm v
step-Linked gm (ticks now) v small =
    swept-Linked (keep_unexpired now) gm v (λ t inv w h. ground arith)
step-Linked gm (forgets id) v small = elim (Bool-cases (id == 0)) [
  | inl nobody ↦ rw nobody v
  | inr somebody ↦ rw somebody (swept-Linked (keep_others id) gm v (λ t inv w h. ground arith))
]

pub step-Sized : (gm : GroupManager) (c : Call) → Sized gm → 2 ≤ gm.max_members → Sized (step gm c)
unfolding step tick forget_session invite decline record_invite
step-Sized gm (invites now a b) v wide = record { pair = λ k g h. ground (arith, v.pair k g) }
step-Sized gm (declines p) v wide = record { pair = λ k g h. ground (arith, v.pair k g) }
step-Sized gm (accepts now p) v wide = accept-Sized now p gm v wide
step-Sized gm (leaves p) v wide = leave-Sized p gm v
step-Sized gm (ticks now) v wide = record { pair = v.pair }
step-Sized gm (forgets id) v wide = record { pair = λ k g h. ground (arith, v.pair k g) }

-- A call gives out one group number at most, and the limit on members stays.
pub step-counts :
    (gm : GroupManager) (c : Call)
    → ((step gm c).next_id ≤ gm.next_id + 1) × ((step gm c).max_members ≡ gm.max_members)
unfolding step tick forget_session invite decline record_invite accept accept_live found_group
    join_group leave shrink_group
step-counts gm (invites now a b) = ground arith
step-counts gm (declines p) = ground arith
step-counts gm (accepts now p) = ground arith
step-counts gm (leaves p) = ground arith
step-counts gm (ticks now) = ground arith
step-counts gm (forgets id) = ground arith
