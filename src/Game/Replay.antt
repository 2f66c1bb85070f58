-- ===== src/Game/Replay.antt =====
-- zone-server/internal/game/server.go: what `HandlePacket` does with a packet before it looks at its
-- contents. The session of an address is here the last sequence number that it has kept.
pub mod Sessions
mod Examples
use zone.Prelude.{
  ℕ, suc, ◌+◌, ◌%◌, ◌≤◌, ◌<◌, ◌≡◌, ◌⊎◌, refl, Bool, true, false, not, ◌&&◌, ◌||◌, Option, none,
  some, List, [], ◌∷◌, arith, length, leb, ltb, ◌==◌, comparable_nat, if◌then◌else◌, Bool-cases,
  Option-cases, inl, inr,
}
use zone.Protocol.Wire.{Result, ok, err, PacketHeader, header_magic, read_header}

abbrev op_heartbeat : ℕ
op_heartbeat = 0x0004

abbrev pub op_ack : ℕ
op_ack = 0x0005

abbrev pub op_server_query : ℕ
op_server_query = 0x0006

abbrev op_client_transform : ℕ
op_client_transform = 0x0010

-- Where the packet goes: nowhere, to the answer of a query, or to the handler of its opcode.
pub data Verdict : Type 0 where
  dropped answered handled : Verdict

pub record Gate : Type 0 where
  pub acked : Bool
  pub verdict : Verdict
  pub last_sequence : Option ℕ

-- `FlagReliable` is the lowest bit.
abbrev pub is_reliable : PacketHeader → Bool
is_reliable hdr = hdr.flags_channel % 2 == 1

-- The packets whose numbers are compared with those of the session.
abbrev pub is_counted : PacketHeader → Bool
is_counted hdr =
    not (hdr.opcode == op_ack)
    && (is_reliable hdr || hdr.opcode == op_heartbeat || hdr.opcode == op_client_transform)

unfoldable pub replay_gate : PacketHeader → Option ℕ → Gate
replay_gate hdr last =
    let acked = not (hdr.opcode == op_ack) && is_reliable hdr in
    if hdr.opcode == op_server_query
    then record { acked = acked; verdict = answered; last_sequence = last }
    else elim last [
      | none ↦ record { acked = acked; verdict = handled; last_sequence = none }
      | some n ↦
          if is_counted hdr
          then if leb hdr.sequence_num n
            then record { acked = acked; verdict = dropped; last_sequence = some n }
            else record { acked = acked; verdict = handled; last_sequence = some hdr.sequence_num }
          else record { acked = acked; verdict = handled; last_sequence = some n }
    ]

abbrev refuse : Option ℕ → Gate
refuse last = record { acked = false; verdict = dropped; last_sequence = last }

unfoldable pub receive : List ℕ → Option ℕ → Gate
receive bytes last = if ltb (length bytes) 12 then refuse last else elim (read_header bytes) [
  | err e ↦ refuse last
  | ok (hdr, payload) ↦ if hdr.magic == header_magic then replay_gate hdr last else refuse last
]

-- A reliable packet that would be handled, and that a counted packet with a higher number
-- overtakes, is acknowledged and dropped when it comes, though it was never handled.
pub replay_gate-overtaken :
    (last : ℕ) (late early : PacketHeader)
    → is_counted late ≡ true
    → not (late.opcode == op_server_query) ≡ true
    → is_reliable early ≡ true
    → not (early.opcode == op_ack) && not (early.opcode == op_server_query) ≡ true
    → last < early.sequence_num
    → early.sequence_num < late.sequence_num
    → let g = replay_gate late (some last) in
      ((replay_gate early (some last)).verdict ≡ handled)
      × (g.verdict ≡ handled)
      × ((replay_gate early g.last_sequence).verdict ≡ dropped)
      × ((replay_gate early g.last_sequence).acked ≡ true)
unfolding replay_gate
replay_gate-overtaken last late early counted other reliable plain newer overtaken = ground arith
