-- ===== src/Game/Groups/Examples.antt =====
-- A party of zone-server/internal/game/groups.go: two players, then a third.
use zone.Prelude.{
  ℕ, ◌≡◌, ◌≢◌, ◌↔◌, refl, true, some, List, [], ◌∷◌, arith, contains, comparable_nat,
}
use zone.Prelude.Map.{lookup, insert, delete, sweep}
use zone.Game.Groups.{
  Group, GroupInvite, GroupManager, Player, ok, new_group_manager, invite, accept, is_same_group,
  tick, forget_session,
}
use zone.Game.Groups.Linked.{Linked}
use zone.Game.Groups.Inv.{Call, invites, accepts, leaves, forgets, step}
use zone.Game.Groups.History.{run, run-Linked, is_same_group_iff}
use zone.Game.Groups.Invites.{step-Spares_invite}

abbrev ann : Player
ann = record { session_id = 1; name = "Ann" }

abbrev bob : Player
bob = record { session_id = 2; name = "Bob" }

abbrev eve : Player
eve = record { session_id = 3; name = "Eve" }

abbrev bob_joins : List Call
bob_joins = invites 10 (some ann) (some bob) ∷ accepts 20 (some bob) ∷ []

-- Eve has an invitation of Bob's that she has not answered.
abbrev eve_invited : List Call
eve_invited =
    invites 10 (some ann) (some bob) ∷ accepts 20 (some bob) ∷ invites 30 (some bob) (some eve) ∷ []

abbrev party : GroupManager
party = run (new_group_manager 4 100) eve_invited

abbrev group : Group
group = record { id = 1; leader_id = 1; members = 1 ∷ 2 ∷ [] }

abbrev invitation : GroupInvite
invitation = record { inviter_id = 2; target_id = 3; target_name = "Eve"; expires_at = 130 }

party_lem : party ≡ record {
  groups = (1, group) ∷ [];
  membership = (1, 1) ∷ (2, 1) ∷ [];
  invites = (3, invitation) ∷ [];
  next_id = 1;
  max_members = 4;
  invite_ttl = 100;
}
unfolding run step new_group_manager invite accept lookup insert delete
party_lem = refl

party-Linked : Linked party
party-Linked = run-Linked 4 100 eve_invited (omega arith)

run-Linked_example : Linked (run (new_group_manager 4 100) (forgets 1 ∷ leaves (some ann) ∷ []))
run-Linked_example = run-Linked 4 100 (forgets 1 ∷ leaves (some ann) ∷ []) (omega arith)

is_same_group_iff_example : (is_same_group 1 2 party ≡ true) ↔ (
    (gid : ℕ) × (g : Group) × (ann.session_id ≢ 0)
    × (bob.session_id ≢ 0)
    × (lookup gid party.groups ≡ some g)
    × (contains 1 g.members ≡ true)
    × (contains 2 g.members ≡ true))
is_same_group_iff_example = is_same_group_iff 1 2 party party-Linked

eve_has_invite : lookup 3 party.invites ≡ some invitation
unfolding lookup
eve_has_invite = rw party_lem refl

eve_accepts : (accept 40 (some eve) party).1 ≡ ok 1
unfolding accept lookup delete insert
eve_accepts = rw party_lem refl

bob_entered : lookup 2 party.membership ≡ some 1
unfolding lookup
bob_entered = rw party_lem refl

group_found : lookup 1 party.groups ≡ some group
unfolding lookup
group_found = rw party_lem refl

step-Spares_invite_example : lookup 3 (step party (leaves (some ann))).invites ≡ some invitation
step-Spares_invite_example =
    step-Spares_invite party 3 invitation (leaves (some ann)) party-Linked eve_has_invite tt

ann_departs : lookup 3 (tick 50 (forget_session 1 party)).invites ≡ some invitation
unfolding tick forget_session sweep lookup
ann_departs = rw party_lem refl
