-- ===== src/Game/Server/Departs.antt =====
-- What is left of a session that departs in zone-server/internal/game/server.go.
use mathlib.Core.Option
use zone.Prelude.{
  ℕ, ◌≡◌, ◌≢◌, ◌∙◌, ap, sym, false, contains, none, some, [], arith, comparable_nat,
  comparable_string, Option-cases, inl, inr,
}
use zone.Prelude.Map.{
  Map, lookup, delete, Distinct, lookup-delete_self, lookup-sweep, delete-Distinct,
}
use zone.Game.Groups.{Group, GroupInvite, GroupManager, Player, leave, forget_session, keep_others}
use zone.Game.Groups.Linked.{Linked}
use zone.Game.Groups.Leave.{leave_lem}
use zone.Game.SpatialGrid.{Floats, GridCellKey, SpatialGrid, remove_entity}
use zone.Game.SpatialGrid.Cells.{is_in}
use zone.Game.SpatialGrid.Indexed.{Indexed, remove_entity-Indexed}
use zone.Game.Server.{
  Parts, IdSet, remove_viewer, drop_viewer, clear_session_tracking, leave_places,
}

-- No part of the server knows the number any more.
pub record Gone (id : ℕ) (p : Parts) : Type 0 where
  pub group : lookup id p.groups.membership ≡ none
  pub members :
      (gid : ℕ) (g : Group) → lookup gid p.groups.groups ≡ some g → contains id g.members ≡ false
  pub invitations :
      (t : ℕ) (inv : GroupInvite)
      → lookup t p.groups.invites ≡ some inv
      → (t ≢ id) × (inv.inviter_id ≢ id)
  pub place : lookup id p.grid.entity_positions ≡ none
  pub coords : lookup id p.grid.entity_coords ≡ none
  pub cells : (k : GridCellKey) → is_in id k p.grid.cells ≡ false
  pub views : lookup id p.aoi_entries ≡ none
  pub seen :
      (viewer : ℕ) (set : IdSet) → lookup viewer p.aoi_entries ≡ some set → lookup id set ≡ none
  pub ledger : lookup id p.item_ledger.sessions ≡ none
  pub damage : lookup id p.budget ≡ none
  pub audit : lookup id p.damage_audit ≡ none
  pub puppets : lookup id p.ai_visible ≡ none

pub leave-out :
    (p : Player) (gm : GroupManager)
    → Linked gm
    → lookup p.session_id (leave (some p) gm).0.membership ≡ none
unfolding leave
leave-out p gm v = elim (Option-cases (lookup p.session_id gm.membership)) [
  | inl outside ↦ rw (outside, leave) outside
  | inr (gid, place) ↦
      let home = v.member_of p.session_id gid place in
      ground (arith, (leave_lem p gid p.session_id home.group gm v place home.found).1)
]

remove_entity-out :
    (id : ℕ) (g : SpatialGrid) → lookup id (remove_entity id g).entity_positions ≡ none
unfolding remove_entity
remove_entity-out id g = elim (Option-cases (lookup id g.entity_positions)) [
  | inl absent ↦ rw (absent, remove_entity) absent
  | inr (key, present) ↦ rw (present, remove_entity) (lookup-delete_self id g.entity_positions)
]

-- An entity that the index of a grid in order does not know is in no cell and has no coordinates.
module _ (fl : Floats) (id : ℕ) (g : SpatialGrid) where
  absent-cells :
      Indexed fl g
      → lookup id g.entity_positions ≡ none
      → (k : GridCellKey) → is_in id k g.cells ≡ false
  absent-cells v out k = ground (arith, v.agrees id k)

  absent-coords :
      Indexed fl g → lookup id g.entity_positions ≡ none → lookup id g.entity_coords ≡ none
  absent-coords v out = elim (Option-cases (lookup id g.entity_coords)) [
    | inl absent ↦ absent
    | inr (at, present) ↦ ground (arith, v.placed id)
  ]

-- A session that is entered in no group is a member of none.
stranger :
    (id gid : ℕ) (g : Group) (gm : GroupManager)
    → Linked gm
    → lookup id gm.membership ≡ none
    → lookup gid gm.groups ≡ some g
    → contains id g.members ≡ false
stranger id gid g gm v out found = ground (arith, v.entered gid g id found)

deleted-none : (id : ℕ) (set : IdSet) → lookup id (delete id set) ≡ none
deleted-none id set = lookup-delete_self id set

remove_viewer-out :
    (id viewer : ℕ) (set : IdSet) (entries : Map ℕ IdSet)
    → Distinct entries
    → (lookup id (remove_viewer id entries) ≡ none)
      × (lookup viewer (remove_viewer id entries) ≡ some set → lookup id set ≡ none)
unfolding remove_viewer Option.bind
remove_viewer-out id viewer set entries d = (
  ground (
    arith,
    lookup-sweep (drop_viewer id) id (delete id entries) (delete-Distinct id entries d),
    lookup-delete_self id entries,
  ),
  λ h. elim (Option-cases (lookup viewer (delete id entries))) [
    | inl none_there ↦ ground (
      arith,
      lookup-sweep (drop_viewer id) viewer (delete id entries) (delete-Distinct id entries d),
    )
    | inr (old, there) ↦ ground (
      arith,
      lookup-sweep (drop_viewer id) viewer (delete id entries) (delete-Distinct id entries d),
      deleted-none id old,
    )
  ],
)

forget_session-out :
    (id : ℕ) (gm : GroupManager)
    → id ≢ 0
    → Distinct gm.invites
    → ((t : ℕ) (inv : GroupInvite)
        → lookup t (forget_session id gm).invites ≡ some inv
        → (t ≢ id) × (inv.inviter_id ≢ id))
      × ((forget_session id gm).membership ≡ gm.membership)
      × ((forget_session id gm).groups ≡ gm.groups)
unfolding forget_session Option.bind
forget_session-out id gm h d = (
  λ t inv found. ground (arith, lookup-sweep (keep_others id) t gm.invites d),
  ground arith,
  ground arith,
)

-- A session that has left its group and its places is gone when its records are cleared.
pub cleared-Gone :
    (fl : Floats) (id : ℕ) (p : Parts)
    → id ≢ 0
    → Linked p.groups
    → Indexed fl p.grid
    → Distinct p.aoi_entries
    → lookup id p.groups.membership ≡ none
    → Gone id (clear_session_tracking id (leave_places id p))
unfolding clear_session_tracking zone.Game.Ledger.remove
cleared-Gone fl id p h v grid views out =
    let forgotten = forget_session-out id p.groups h v.distinct_invites in
    let left = remove_entity-Indexed fl id p.grid grid in
    let place = remove_entity-out id p.grid in
    record {
      group = ap (lookup id) forgotten.1 ∙ out;
      members = λ gid g found.
          stranger id gid g p.groups v out (sym (ap (lookup gid) forgotten.2) ∙ found);
      invitations = forgotten.0;
      place = place;
      coords = absent-coords fl id (remove_entity id p.grid) left place;
      cells = absent-cells fl id (remove_entity id p.grid) left place;
      views = (remove_viewer-out id id [] p.aoi_entries views).0;
      seen = λ viewer set. (remove_viewer-out id viewer set p.aoi_entries views).1;
      ledger = lookup-delete_self id p.item_ledger.sessions;
      damage = lookup-delete_self id p.budget;
      audit = lookup-delete_self id p.damage_audit;
      puppets = lookup-delete_self id p.ai_visible;
    }
