-- ===== src/Game/Server/Ghosts.antt =====
-- A session that is kicked, evicted or disconnected in zone-server/internal/game/server.go leaves no
-- ghost.
use Prim.Native.String.{String}
use mathlib.Core.Path.{subst}
use zone.Prelude.{
  ℕ, ◌≡◌, ◌≢◌, ◌∙◌, sym, refl, Bool, true, false, not, ◌||◌, none, some, [], ◌∷◌, arith, ◌==◌,
  comparable_nat, comparable_string, Option-cases, Bool-cases, inl, inr,
}
use zone.Prelude.Map.{Map, lookup, sweep, Distinct, lookup-delete_self}
use zone.Network.AckQueue.{AckEntry, keep_other, remove_by_addr}
use zone.Network.Sessions.{Heap, SessionManager, remove_session}
use zone.Game.Groups.{leave}
use zone.Game.Groups.Linked.{Linked}
use zone.Game.Groups.Leave.{leave-Linked}
use zone.Game.SpatialGrid.{Floats}
use zone.Game.SpatialGrid.Indexed.{Indexed}
use zone.Game.Sleepers.{SessionState}
use zone.Game.Server.{
  Wire, Parts, Outbox, remove_from_group, clear_session_tracking, leave_places, kick_session,
  cleanup_evicted_session, disconnect, time_out, leave_body, broadcast_entity_leave_to_peers,
  player, purge, send_to_session, disconnects,
}
use zone.Game.Server.Departs.{Gone, cleared-Gone, leave-out}

-- No packet waits for an address after the queue is purged of it.
abbrev pub at_text : Wire → String → AckEntry → Bool
at_text wire text e = elim e.addr [ none ↦ false | some a ↦ wire.addr_string a == text ]

lookup-purged :
    (wire : Wire) (text : String) (seq : ℕ) (e : AckEntry) (entries : Map ℕ AckEntry)
    → lookup seq (sweep (keep_other wire.addr_string text) entries) ≡ some e
    → at_text wire text e ≡ false
unfolding lookup sweep
lookup-purged wire text seq e [] found = cc
lookup-purged wire text seq e ((k, x) ∷ entries) found = elim (Bool-cases (at_text wire text x)) [
  | inl there ↦ ground (arith, lookup-purged wire text seq e entries)
  | inr other ↦ ground (arith, lookup-purged wire text seq e entries)
]

module _ (h : Heap) (wire : Wire) (now : ℕ) where
  remove_from_group-parts :
      (r : ℕ) (p : Parts) (o : Outbox)
      → (remove_from_group h wire now r p o).0
        ≡ record p { groups = (leave (some (player h wire now r)) p.groups).0 }
  unfolding remove_from_group
  remove_from_group-parts r p o =
      elim (Bool-cases (
        not (leave (some (player h wire now r)) p.groups).1.was_member
        || (leave (some (player h wire now r)) p.groups).1.group_id == 0)) [
          | inl alone ↦ rw alone refl
          | inr shared ↦ rw shared refl
        ]

  -- A session that leaves its group and its places and is forgotten is gone.
  departed-Gone :
      (fl : Floats) (r : ℕ) (p : Parts) (o : Outbox)
      → (h r).session_id ≢ 0
      → Linked p.groups
      → Indexed fl p.grid
      → Distinct p.aoi_entries
      → (sm : SessionManager)
      → Gone (h r).session_id (
          clear_session_tracking
            (h r).session_id
            (record (leave_places (h r).session_id (remove_from_group h wire now r p o).0) {
              sessions = sm;
            }))
  departed-Gone fl r p o real v grid views sm = rw (remove_from_group-parts r p o) (
      cleared-Gone fl (h r).session_id
        (record p { groups = (leave (some (player h wire now r)) p.groups).0; sessions = sm }) real
        (leave-Linked (some (player h wire now r)) p.groups v) grid views
        (leave-out (player h wire now r) p.groups v))

  remove_session-out :
      (id : ℕ) (sm : SessionManager) → lookup id (remove_session h id sm).sessions ≡ none
  unfolding remove_session
  remove_session-out id sm = elim (Option-cases (lookup id sm.sessions)) [
    | inl absent ↦ rw (absent, remove_session) absent
    | inr (r, present) ↦ rw (present, remove_session) (lookup-delete_self id sm.sessions)
  ]

  -- On a server whose session table, parties and grid are in order, with one set of views to a
  -- session, a kick of a session that is there, with a number other than 0, succeeds and leaves
  -- nothing of it: its number is entered in no party and a member of none, names no invitation, is
  -- in no cell of the grid and has no place or coordinates there, sees and is seen by nobody, has
  -- no ledger, damage budget, audit mark or view of the puppets, and no session.
  pub kick_session-Gone :
      (fl : Floats) (id r : ℕ) (p : Parts) (o : Outbox)
      → id ≢ 0
      → zone.Network.Sessions.Capped.Inv h p.sessions
      → Linked p.groups
      → Indexed fl p.grid
      → Distinct p.aoi_entries
      → lookup id p.sessions.sessions ≡ some r
      → let (p', o', kicked) = kick_session h wire now id p o in
        (kicked ≡ true) × Gone id p' × (lookup id p'.sessions.sessions ≡ none)
  unfolding kick_session clear_session_tracking
  kick_session-Gone fl id r p o real table v grid views found =
      let same = table.keyed id r found in
      let left =
        remove_from_group h wire now r p
          (send_to_session h wire now p r disconnects (purge h wire now (h r).udp_addr o)) in
      rw (found, kick_session)
        (
          refl,
          subst
              (λ k. Gone k (
                clear_session_tracking k (record (leave_places k left.0) {
                  sessions = remove_session h id left.0.sessions;
                })))
              same
              (departed-Gone fl r p
                (send_to_session h wire now p r disconnects (purge h wire now (h r).udp_addr o))
                (λ z. real (sym same ∙ z)) v grid views (remove_session h id left.0.sessions)),
          remove_session-out id left.0.sessions,
        )

  -- On a server whose parties and grid are in order, with one set of views to a session, the
  -- cleanup of an evicted session with an address and a number other than 0 leaves its number in no
  -- party, no invitation, no cell, place or coordinates of the grid, no view, no ledger, budget,
  -- audit mark or view of the puppets, and no packet that waits for that address.
  pub cleanup_evicted_session-Gone :
      (fl : Floats) (r : ℕ) (text : String) (p : Parts) (o : Outbox)
      → (h r).session_id ≢ 0
      → Linked p.groups
      → Indexed fl p.grid
      → Distinct p.aoi_entries
      → (h r).udp_addr ≡ some text
      → text == "" ≡ false
      → let (p', o') = cleanup_evicted_session h wire now r p o in
        Gone (h r).session_id p'
        × ((seq : ℕ) (e : AckEntry)
            → lookup seq o'.ack_queue.entries ≡ some e
            → at_text wire text e ≡ false)
  unfolding cleanup_evicted_session remove_by_addr
  cleanup_evicted_session-Gone fl r text p o real v grid views addr named = (
    departed-Gone fl r p _ real v grid views _,
    λ seq e. rw addr (rw named (lookup-purged wire text seq e _)),
  )

  -- On a server whose parties and grid are in order, with one set of views to a session, a
  -- disconnect from the address of a session with a number other than 0 that leaves no body behind
  -- completes and leaves its number in no party, no invitation, no cell, place or coordinates of
  -- the grid, no view, no ledger, budget, audit mark or view of the puppets and no session, and no
  -- packet that waits for that address.
  pub disconnect-Gone :
      (fl : Floats) (state : SessionState) (text : String) (r : ℕ) (p : Parts) (o : Outbox)
      → (h r).session_id ≢ 0
      → Linked p.groups
      → Indexed fl p.grid
      → Distinct p.aoi_entries
      → lookup text p.sessions.by_addr ≡ some r
      → text == "" ≡ false
      → (p' : Parts) × (o' : Outbox) × (disconnect h wire now fl state false text p o
          ≡ some (p', o'))
        × Gone (h r).session_id p'
        × (lookup (h r).session_id p'.sessions.sessions ≡ none)
        × ((seq : ℕ) (e : AckEntry)
            → lookup seq o'.ack_queue.entries ≡ some e
            → at_text wire text e ≡ false)
  unfolding disconnect leave_body remove_by_addr clear_session_tracking
  disconnect-Gone fl state text r p o real v grid views found named =
      let left = remove_from_group h wire now r p o in
      let sm = remove_session h (h r).session_id left.0.sessions in
      (
        clear_session_tracking (h r).session_id
            (record (leave_places (h r).session_id left.0) { sessions = sm }),
        purge h wire now (some text) (
            broadcast_entity_leave_to_peers h wire now (leave_places (h r).session_id left.0)
              (h r).session_id (wire.level r) left.1),
        rw (found, disconnect) refl,
        departed-Gone fl r p o real v grid views sm,
        remove_session-out (h r).session_id left.0.sessions,
        λ seq e. rw named (lookup-purged wire text seq e _),
      )

  -- On a server whose parties and grid are in order, with one set of views to a session, a session
  -- with a number other than 0 that is timed out and leaves no body behind is
  -- gone from all parts of the server that know it by its number, and no packet waits for its
  -- address if it had one.
  time_out-Gone :
      (fl : Floats) (state : SessionState) (text : String) (r : ℕ) (p : Parts) (o : Outbox)
      → (h r).session_id ≢ 0
      → Linked p.groups
      → Indexed fl p.grid
      → Distinct p.aoi_entries
      → (h r).udp_addr ≡ some text
      → text == "" ≡ false
      → (p' : Parts) × (o' : Outbox) × (time_out h wire now fl state false r p o ≡ some (p', o'))
        × Gone (h r).session_id p'
        × (lookup (h r).session_id p'.sessions.sessions ≡ none)
        × ((seq : ℕ) (e : AckEntry)
            → lookup seq o'.ack_queue.entries ≡ some e
            → at_text wire text e ≡ false)
  unfolding time_out leave_body remove_by_addr clear_session_tracking
  time_out-Gone fl state text r p o real v grid views addr named =
      let left = remove_from_group h wire now r p o in
      let sm = remove_session h (h r).session_id left.0.sessions in
      (
        clear_session_tracking (h r).session_id
            (record (leave_places (h r).session_id left.0) { sessions = sm }),
        purge h wire now (h r).udp_addr (
            broadcast_entity_leave_to_peers h wire now (leave_places (h r).session_id left.0)
              (h r).session_id (wire.level r) left.1),
        refl,
        departed-Gone fl r p o real v grid views sm,
        remove_session-out (h r).session_id left.0.sessions,
        λ seq e. rw addr (rw named (lookup-purged wire text seq e _)),
      )
