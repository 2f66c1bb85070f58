-- ===== src/Protocol/Examples.antt =====
-- Packets of zone-server/internal/protocol/packets.go on the wire.
use zone.Prelude.{ℕ, ◌≤◌, ◌<◌, ◌≡◌, ◌⊎◌, refl, some, List, [], ◌∷◌, ◌++◌, arith, replicate}
use zone.Protocol.Wire.{
  ok, header_magic, protocol_ver, put_header, read_header, finish_packet, read_header-finish_packet,
  bytes, failed, payload_exceeds_mtu,
}
use zone.Protocol.Counted.{AllFit, AllFit-replicate}
use zone.Protocol.Snapshot.{
  SnapshotEntry, ServerSnapshot, FitsWire, snapshot_codec, write_server_snapshot,
  read_server_snapshot, zero_snapshot_entry, read-write_server_snapshot,
}
use zone.Protocol.GroupState.{GroupState, GroupStateMember, member_codec, zero_member}
use zone.Protocol.AiState.{AiStatePacket, AiStateEntry, ai_codec, zero_ai_entry}

abbrev walker : SnapshotEntry
walker = record {
  session_id = 9;
  pos_x = 1;
  pos_y = 2;
  pos_z = 3;
  yaw = 4;
  pitch = 5;
  anim_flags = 6;
  health = 100;
}

abbrev snapshot : ServerSnapshot
snapshot = record { count = 1; entries = walker ∷ replicate 31 zero_snapshot_entry }

walker-FitsWire : FitsWire walker
walker-FitsWire = record {
  session_id = omega arith;
  pos_x = omega arith;
  pos_y = omega arith;
  pos_z = omega arith;
  yaw = omega arith;
  pitch = omega arith;
}

zero-FitsWire : FitsWire zero_snapshot_entry
zero-FitsWire = record {
  session_id = omega arith;
  pos_x = omega arith;
  pos_y = omega arith;
  pos_z = omega arith;
  yaw = omega arith;
  pitch = omega arith;
}

snapshot-AllFit : AllFit snapshot_codec snapshot.entries
snapshot-AllFit =
    (walker-FitsWire, AllFit-replicate snapshot_codec 31 zero_snapshot_entry zero-FitsWire)

read-write_server_snapshot_example :
    (payload : List ℕ) × (write_server_snapshot 5 1 0 (some snapshot)
      ≡ bytes (put_header 5 1 0 23 ++ payload))
    × (read_server_snapshot payload ≡ ok (record { count = 1; entries = snapshot.entries }, []))
read-write_server_snapshot_example = read-write_server_snapshot 5 1 0 snapshot refl snapshot-AllFit

abbrev leader : GroupStateMember
leader = record zero_member { session_id = 77; is_leader = 1 }

abbrev roster : GroupState
roster = record { member_count = 1; members = leader ∷ replicate 7 zero_member }

roster-AllFit : AllFit member_codec roster.members
roster-AllFit = (
  record { session_id = omega arith; name = refl; faction = refl },
  AllFit-replicate member_codec 7 zero_member
      (record { session_id = omega arith; name = refl; faction = refl }),
)

abbrev puppet : AiStateEntry
puppet = record { entity_id = 5; x = 1; y = 2; z = 3; yaw = 4; anim = 1 }

abbrev puppets : AiStatePacket
puppets = record { count = 1; entries = puppet ∷ replicate 31 zero_ai_entry }

puppets-AllFit : AllFit ai_codec puppets.entries
puppets-AllFit = (
  record {
    entity_id = omega arith;
    x = omega arith;
    y = omega arith;
    z = omega arith;
    yaw = omega arith;
  },
  AllFit-replicate ai_codec 31 zero_ai_entry (record {
    entity_id = omega arith;
    x = omega arith;
    y = omega arith;
    z = omega arith;
    yaw = omega arith;
  }),
)

read_header-finish_packet_example :
    (1200 < 2) × (finish_packet 5 1 0 (8 ∷ 9 ∷ []) ≡ failed payload_exceeds_mtu)
    ⊎ (2 ≤ 1200)
      × ((out : List ℕ) × (finish_packet 5 1 0 (8 ∷ 9 ∷ []) ≡ bytes out)
          × (read_header out
              ≡ ok (
                record {
                  magic = header_magic;
                  protocol = protocol_ver;
                  flags_channel = 0;
                  sequence_num = 1;
                  opcode = 5;
                  payload_length = 2;
                },
                8 ∷ 9 ∷ [],
              )))
read_header-finish_packet_example =
    read_header-finish_packet 5 1 0 (8 ∷ 9 ∷ []) (omega arith) (omega arith)
