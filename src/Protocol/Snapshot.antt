-- ===== src/Protocol/Snapshot.antt =====
-- Server snapshots of zone-server/internal/protocol/packets.go. A float or a signed number is its
-- bit pattern. The program has two copies of the writer and of the reader, one for the concrete
-- buffer types; a write to the destination does not fail.
use zone.Prelude.{
  ℕ, ◌+◌, ◌-◌, ◌*◌, ◌%◌, ◌≤◌, ◌≡◌, ◌∙◌, sym, refl, ap, min, Option, none, some, List, [], ◌∷◌, ◌++◌,
  arith, length, length-append, length-take, take, replicate, ltb, if◌then◌else◌,
}
use mathlib.Core.List.{append-nil}
use zone.Protocol.Wire.{
  Result, ok, ◌>>=◌, byte_at, u16_at, u32_at, put_u16, put_u32, IsU16, IsU32, u16_put, u32_put,
  put_header, max_safe_udp_packet_size, Written, bytes, failed, payload_exceeds_mtu,
  payload_too_large,
}
use zone.Protocol.Counted.{
  Codec, AllFit, put_entries, put_counted, get_counted, get_counted-put_counted, length-put_entries,
  AllFit-take,
}

pub record SnapshotEntry : Type 0 where
  pub session_id : ℕ
  pub pos_x : ℕ
  pub pos_y : ℕ
  pub pos_z : ℕ
  pub yaw : ℕ
  pub pitch : ℕ
  pub anim_flags : ℕ
  pub health : ℕ

pub record ServerSnapshot : Type 0 where
  pub count : ℕ
  pub entries : List SnapshotEntry

abbrev pub max_snapshot_entries : ℕ
max_snapshot_entries = 32

abbrev pub snapshot_entry_wire_size : ℕ
snapshot_entry_wire_size = 22

unfoldable pub encode_snapshot_entry : SnapshotEntry → List ℕ
encode_snapshot_entry e =
    put_u32 e.session_id
    ++ put_u32 e.pos_x
    ++ put_u32 e.pos_y
    ++ put_u32 e.pos_z
    ++ put_u16 e.yaw
    ++ put_u16 e.pitch
    ++ e.anim_flags ∷ e.health ∷ []

unfoldable pub decode_snapshot_entry : List ℕ → SnapshotEntry
decode_snapshot_entry src = record {
  session_id = u32_at 0 src;
  pos_x = u32_at 4 src;
  pos_y = u32_at 8 src;
  pos_z = u32_at 12 src;
  yaw = u16_at 16 src;
  pitch = u16_at 18 src;
  anim_flags = byte_at 20 src;
  health = byte_at 21 src;
}

pub record FitsWire (e : SnapshotEntry) : Type 0 where
  pub session_id : IsU32 e.session_id
  pub pos_x : IsU32 e.pos_x
  pub pos_y : IsU32 e.pos_y
  pub pos_z : IsU32 e.pos_z
  pub yaw : IsU16 e.yaw
  pub pitch : IsU16 e.pitch

-- An entry of 22 bytes is decoded to the entry that was encoded.
pub decode-encode_snapshot_entry :
    (e : SnapshotEntry) → FitsWire e → decode_snapshot_entry (encode_snapshot_entry e) ≡ e
unfolding decode_snapshot_entry encode_snapshot_entry
decode-encode_snapshot_entry e f = rw (u32_put e.session_id f.session_id) (
    rw (u32_put e.pos_x f.pos_x) (
      rw (u32_put e.pos_y f.pos_y) (
        rw (u32_put e.pos_z f.pos_z)
          (rw (u16_put e.yaw f.yaw) (rw (u16_put e.pitch f.pitch) refl)))))

pub length-encode_snapshot_entry : (e : SnapshotEntry) → length (encode_snapshot_entry e) ≡ 22
unfolding encode_snapshot_entry
length-encode_snapshot_entry e = refl

abbrev pub snapshot_codec : Codec SnapshotEntry
snapshot_codec = record {
  size = snapshot_entry_wire_size;
  encode = encode_snapshot_entry;
  decode = decode_snapshot_entry;
  Fits = FitsWire;
  length-encode = λ e f. length-encode_snapshot_entry e;
  decode-encode = decode-encode_snapshot_entry;
}

abbrev pub zero_snapshot_entry : SnapshotEntry
zero_snapshot_entry = record {
  session_id = 0;
  pos_x = 0;
  pos_y = 0;
  pos_z = 0;
  yaw = 0;
  pitch = 0;
  anim_flags = 0;
  health = 0;
}

-- `int(snap.Count)`, cut to the length of the array; a nil snapshot has no entries.
abbrev pub clamped_count : Option ServerSnapshot → ℕ
clamped_count none = 0
clamped_count (some s) = min s.count (length s.entries)

abbrev pub entries_of : Option ServerSnapshot → List SnapshotEntry
entries_of none = []
entries_of (some s) = s.entries

abbrev pub payload_len : ℕ → ℕ
payload_len count = 1 + count * snapshot_entry_wire_size

abbrev pub snapshot_bytes : ℕ → ℕ → ℕ → Option ServerSnapshot → List ℕ
snapshot_bytes opcode seq flags snap =
    let count = clamped_count snap in
    put_header opcode seq flags (payload_len count % 65536)
    ++ count % 256 ∷ put_entries snapshot_codec (take count (entries_of snap))

unfoldable pub write_server_snapshot_buffer : ℕ → ℕ → ℕ → Option ServerSnapshot → Written
write_server_snapshot_buffer opcode seq flags snap =
    if ltb max_safe_udp_packet_size (payload_len (clamped_count snap))
    then failed payload_exceeds_mtu
    else bytes (snapshot_bytes opcode seq flags snap)

unfoldable pub write_server_snapshot : ℕ → ℕ → ℕ → Option ServerSnapshot → Written
write_server_snapshot opcode seq flags snap =
    let len = payload_len (clamped_count snap) in
    if ltb max_safe_udp_packet_size len
    then failed payload_exceeds_mtu
    else if ltb 65535 len
    then failed payload_too_large
    else bytes (snapshot_bytes opcode seq flags snap)

-- `ReadServerSnapshot`: the count as it was sent, and the array with the entries in front.
unfoldable pub read_server_snapshot : List ℕ → Result (ServerSnapshot × List ℕ)
read_server_snapshot xs = do
  (r, rest) ← get_counted snapshot_codec max_snapshot_entries zero_snapshot_entry xs
  ok (record { count = r.count; entries = r.entries }, rest)

-- For a snapshot whose array has at most 54 entries, or none at all, both copies of the writer
-- succeed and give the same bytes.
pub write_server_snapshot-buffer :
    (opcode seq flags : ℕ) (snap : Option ServerSnapshot)
    → length (entries_of snap) ≤ 54
    → (write_server_snapshot opcode seq flags snap
        ≡ write_server_snapshot_buffer opcode seq flags snap)
      × (write_server_snapshot opcode seq flags snap ≡ bytes (snapshot_bytes opcode seq flags snap))
unfolding write_server_snapshot write_server_snapshot_buffer
write_server_snapshot-buffer opcode seq flags none h = ground arith
write_server_snapshot-buffer opcode seq flags (some s) h = ground arith

snapshot_bytes_lem :
    (opcode seq flags : ℕ) (s : ServerSnapshot)
    → length s.entries ≡ max_snapshot_entries
    → snapshot_bytes opcode seq flags (some s)
      ≡ put_header opcode seq flags (1 + min s.count 32 * 22)
        ++ put_counted snapshot_codec 32 s.count s.entries
unfolding put_counted
snapshot_bytes_lem opcode seq flags s whole =
    let len : (1 + min s.count 32 * 22) % 65536 ≡ 1 + min s.count 32 * 22 = omega arith in
    rw whole (rw len refl)

written_lem :
    (opcode seq flags : ℕ) (s : ServerSnapshot)
    → length s.entries ≡ max_snapshot_entries
    → write_server_snapshot opcode seq flags (some s)
      ≡ bytes (
          put_header opcode seq flags (1 + min s.count 32 * 22)
          ++ put_counted snapshot_codec 32 s.count s.entries)
written_lem opcode seq flags s whole =
    (write_server_snapshot-buffer opcode seq flags (some s) (omega arith)).1
    ∙ ap bytes (snapshot_bytes_lem opcode seq flags s whole)

-- The packet of a snapshot whose array has 32 entries that fit their fields is a header of 12 bytes
-- and a payload of one byte and 22 for each entry up to 32, and is no longer than the safe packet
-- size.
pub write_server_snapshot-length :
    (opcode seq flags : ℕ) (s : ServerSnapshot)
    → length s.entries ≡ max_snapshot_entries
    → AllFit snapshot_codec s.entries
    → (out : List ℕ) × (write_server_snapshot opcode seq flags (some s) ≡ bytes out)
      × (length out ≡ 12 + (1 + min s.count 32 * 22))
      × (length out ≤ max_safe_udp_packet_size)
unfolding put_counted put_header
write_server_snapshot-length opcode seq flags s whole fit =
    (_, written_lem opcode seq flags s whole, long, rw long (omega arith))
  where
    n : ℕ
    n = min s.count 32

    long :
        length (
          put_header opcode seq flags (1 + n * 22)
          ++ put_counted snapshot_codec 32 s.count s.entries)
        ≡ 12 + (1 + n * 22)
    long = omega (
      arith,
      length-append (put_header opcode seq flags (1 + n * 22))
          (put_counted snapshot_codec 32 s.count s.entries),
      length-put_entries snapshot_codec (take n s.entries)
          (AllFit-take snapshot_codec n s.entries fit),
      length-take n s.entries,
    )

-- A snapshot whose array has 32 entries that fit their fields on the wire is written as a header
-- and a payload, and what a client reads from the payload is the count, cut to 32, and that many of
-- the entries, with zeros behind them and no byte left.
pub read-write_server_snapshot :
    (opcode seq flags : ℕ) (s : ServerSnapshot)
    → length s.entries ≡ max_snapshot_entries
    → AllFit snapshot_codec s.entries
    → (payload : List ℕ) × (write_server_snapshot opcode seq flags (some s)
        ≡ bytes (put_header opcode seq flags (1 + min s.count 32 * 22) ++ payload))
      × (read_server_snapshot payload
          ≡ ok (
            record {
              count = min s.count 32;
              entries =
                  take (min s.count 32) s.entries
                  ++ replicate (32 - min s.count 32) zero_snapshot_entry;
            },
            [],
          ))
unfolding read_server_snapshot
read-write_server_snapshot opcode seq flags s whole fit =
    let payload = put_counted snapshot_codec 32 s.count s.entries in
    (
      payload,
      written_lem opcode seq flags s whole,
      ap (λ xs. read_server_snapshot xs) (sym (append-nil payload))
          ∙ rw
              (get_counted-put_counted snapshot_codec 32 s.count zero_snapshot_entry s.entries []
                (omega arith) whole fit)
              refl,
    )
