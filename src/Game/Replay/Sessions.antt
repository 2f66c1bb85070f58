-- ===== src/Game/Replay/Sessions.antt =====
-- zone-server/internal/game/server.go: the sessions that an address has one after the other, and the
-- packets that each handles.
use zone.Prelude.{
  ℕ, ◌+◌, ◌≡◌, refl, Bool, true, false, ◌&&◌, ◌||◌, Option, none, some, List, [], ◌∷◌, arith, leb,
  ltb, ◌==◌, comparable_nat, if◌then◌else◌, Bool-cases, inl, inr,
}
use zone.Protocol.Wire.{PacketHeader}
use zone.Game.Replay.{Verdict, dropped, answered, handled, is_counted, replay_gate}

abbrev op_handshake_req : ℕ
op_handshake_req = 0x0001

abbrev op_disconnect : ℕ
op_disconnect = 0x0003

abbrev is_handled : Verdict → Bool
is_handled handled = true
is_handled dropped = false
is_handled answered = false

-- A handshake that reaches its handler, which `accepted` says admits a session, puts a new session
-- in place of what the address had. The other handler that changes which session the address has is
-- that of a disconnect.
unfoldable pub begins_session : PacketHeader → Bool → Option ℕ → Bool
begins_session hdr accepted last =
    is_handled (replay_gate hdr last).verdict && hdr.opcode == op_handshake_req && accepted

unfoldable pub ends_session : PacketHeader → Option ℕ → Bool
ends_session hdr last = is_handled (replay_gate hdr last).verdict && hdr.opcode == op_disconnect

-- The session of the address after the packet.
unfoldable pub handle_packet : PacketHeader → Bool → Option ℕ → Option ℕ
handle_packet hdr accepted last =
    if begins_session hdr accepted last
    then some hdr.sequence_num
    else if ends_session hdr last
    then none
    else (replay_gate hdr last).last_sequence

-- What reaches the session of an address: a packet, or its removal by the server, which kicks it,
-- times it out or evicts it.
pub data Event : Type 0 where
  comes : PacketHeader → Bool → Event
  removed : Event

-- A number that is handled, with the count of the sessions begun at the address before it.
pub record Handled : Type 0 where
  pub session : ℕ
  pub number : ℕ

abbrev same_handled : Handled → Handled → Bool
same_handled a b = a.session == b.session && a.number == b.number

abbrev was_handled : Handled → List Handled → Bool
was_handled h [] = false
was_handled h (x ∷ xs) = same_handled x h || was_handled h xs

abbrev pub NoRepeats : List Handled → Type 0
NoRepeats [] = Unit {0}
NoRepeats (h ∷ hs) = (was_handled h hs ≡ false) × NoRepeats hs

-- Whether the packet is compared with the session that is there, and handled.
unfoldable pub is_taken : PacketHeader → Option ℕ → Bool
is_taken hdr none = false
is_taken hdr (some n) = is_counted hdr && is_handled (replay_gate hdr (some n)).verdict

-- The numbers of the counted packets that the sessions of the address handle, in their order. The
-- handshake that begins a session is its first.
unfoldable pub handled_numbers : ℕ → Option ℕ → List Event → List Handled
handled_numbers session last [] = []
handled_numbers session last (removed ∷ events) = handled_numbers session none events
handled_numbers session last (comes hdr accepted ∷ events) =
    let session' = if begins_session hdr accepted last then session + 1 else session in
    let rest = handled_numbers session' (handle_packet hdr accepted last) events in
    if begins_session hdr accepted last || is_taken hdr last
    then record { session = session'; number = hdr.sequence_num } ∷ rest
    else rest

-- The number belongs to a session that is over or to the one that is there, which has kept a number
-- that is no smaller.
abbrev is_past : Handled → ℕ → Option ℕ → Bool
is_past h session last =
    ltb h.session session
    || h.session == session && elim last [ none ↦ true | some n ↦ leb h.number n ]

-- After a packet what is past is past still, and it is not the number that the packet adds; that
-- one is then past itself.
step-is_past :
    (h : Handled) (session : ℕ) (last : Option ℕ) (hdr : PacketHeader) (accepted : Bool)
    → is_past h session last ≡ true
    → let session' = if begins_session hdr accepted last then session + 1 else session in
      (is_past h session' (handle_packet hdr accepted last) ≡ true)
      × (begins_session hdr accepted last || is_taken hdr last ≡ true
          → same_handled (record { session = session'; number = hdr.sequence_num }) h ≡ false)
unfolding replay_gate handle_packet begins_session ends_session is_taken
step-is_past h session none hdr accepted past = ground arith
step-is_past h session (some n) hdr accepted past = ground arith

added-is_past :
    (session : ℕ) (last : Option ℕ) (hdr : PacketHeader) (accepted : Bool)
    → begins_session hdr accepted last || is_taken hdr last ≡ true
    → let session' = if begins_session hdr accepted last then session + 1 else session in
      is_past
        (record { session = session'; number = hdr.sequence_num })
        session'
        (handle_packet hdr accepted last)
      ≡ true
unfolding replay_gate handle_packet begins_session ends_session is_taken
added-is_past session none hdr accepted added = ground arith
added-is_past session (some n) hdr accepted added = ground arith

past-handled :
    (h : Handled) (session : ℕ) (last : Option ℕ) (events : List Event)
    → is_past h session last ≡ true
    → was_handled h (handled_numbers session last events) ≡ false
unfolding handled_numbers
past-handled h session last [] past = refl
past-handled h session none (removed ∷ events) past = past-handled h session none events past
past-handled h session (some n) (removed ∷ events) past =
    past-handled h session none events (ground arith)
past-handled h session last (comes hdr accepted ∷ events) past =
    let (still, other) = step-is_past h session last hdr accepted past in
    let rest =
      past-handled h (if begins_session hdr accepted last then session + 1 else session)
        (handle_packet hdr accepted last) events still in
    elim (Bool-cases (begins_session hdr accepted last || is_taken hdr last)) [
      | inl added ↦ rw (added, handled_numbers) (rw (other added) rest)
      | inr passed ↦ rw (passed, handled_numbers) rest
    ]

-- Whatever packets come from an address, in whatever order and however often, and whenever the
-- server removes the session of the address, no session handles a number twice among the handshake
-- that began it, its reliable packets other than acknowledgements, its heartbeats and its
-- transforms. A session begins with a handshake that is accepted, and ends with the next such
-- handshake, a disconnect or a removal.
pub handled_numbers-NoRepeats :
    (session : ℕ) (last : Option ℕ) (events : List Event)
    → NoRepeats (handled_numbers session last events)
unfolding handled_numbers
handled_numbers-NoRepeats session last [] = tt
handled_numbers-NoRepeats session last (removed ∷ events) =
    handled_numbers-NoRepeats session none events
handled_numbers-NoRepeats session last (comes hdr accepted ∷ events) =
    let session' = if begins_session hdr accepted last then session + 1 else session in
    let next = handle_packet hdr accepted last in
    let rest = handled_numbers-NoRepeats session' next events in
    elim (Bool-cases (begins_session hdr accepted last || is_taken hdr last)) [
      | inl added ↦
          rw (added, handled_numbers)
            (
              past-handled (record { session = session'; number = hdr.sequence_num }) session' next
                  events (added-is_past session last hdr accepted added),
              rest,
            )
      | inr passed ↦ rw (passed, handled_numbers) rest
    ]
