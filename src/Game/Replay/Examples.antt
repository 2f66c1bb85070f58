-- ===== src/Game/Replay/Examples.antt =====
-- Packets of zone-server/internal/game/server.go that arrive out of order.
use zone.Prelude.{ℕ, List, ◌≡◌, refl, true, false, some, [], ◌∷◌, arith, comparable_nat}
use zone.Protocol.Wire.{PacketHeader}
use zone.Game.Replay.{dropped, handled, replay_gate, receive, replay_gate-overtaken}
use zone.Game.Replay.Sessions.{
  Event, comes, removed, Handled, NoRepeats, handle_packet, begins_session, ends_session, is_taken,
  handled_numbers, handled_numbers-NoRepeats,
}

-- A chat message and a heartbeat.
abbrev chat : ℕ → PacketHeader
chat seq = record {
  magic = 0x5A4F;
  protocol = 1;
  flags_channel = 1;
  sequence_num = seq;
  opcode = 0x0020;
  payload_length = 0;
}

abbrev heartbeat : ℕ → PacketHeader
heartbeat seq = record (chat seq) { flags_channel = 0; opcode = 4 }

-- The numbers of the second session, which the first handshake here begins, start at 2 again.
abbrev hello : ℕ → PacketHeader
hello seq = record (chat seq) { flags_channel = 0; opcode = 1 }

abbrev goodbye : ℕ → PacketHeader
goodbye seq = record (chat seq) { opcode = 3 }

abbrev history : List Event
history =
    comes (chat 4) false
    ∷ comes (heartbeat 7) false
    ∷ comes (chat 6) false
    ∷ comes (hello 2) true
    ∷ comes (chat 4) false
    ∷ comes (chat 4) false
    ∷ comes (goodbye 5) false
    ∷ comes (chat 5) false
    ∷ comes (hello 1) true
    ∷ removed
    ∷ []

abbrev at : ℕ → ℕ → Handled
at session number = record { session = session; number = number }

handled_test :
    handled_numbers 0 (some 3) history ≡ at 0 4 ∷ at 0 7 ∷ at 1 2 ∷ at 1 4 ∷ at 1 5 ∷ at 2 1 ∷ []
unfolding handled_numbers replay_gate handle_packet begins_session ends_session is_taken
handled_test = refl

short_test :
    receive (1 ∷ 2 ∷ 3 ∷ []) (some 5)
    ≡ record { acked = false; verdict = dropped; last_sequence = some 5 }
unfolding receive
short_test = refl

handled_numbers-NoRepeats_example : NoRepeats (handled_numbers 0 (some 3) history)
handled_numbers-NoRepeats_example = handled_numbers-NoRepeats 0 (some 3) history

-- The heartbeat overtakes the message, which is acknowledged and lost.
replay_gate-overtaken_example :
    let g = replay_gate (heartbeat 7) (some 4) in
    ((replay_gate (chat 6) (some 4)).verdict ≡ handled)
    × (g.verdict ≡ handled)
    × ((replay_gate (chat 6) g.last_sequence).verdict ≡ dropped)
    × ((replay_gate (chat 6) g.last_sequence).acked ≡ true)
replay_gate-overtaken_example =
    replay_gate-overtaken 4 (heartbeat 7) (chat 6) refl refl refl refl (omega arith) (omega arith)
