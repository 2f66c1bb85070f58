-- ===== src/Protocol/AiState.antt =====
-- The puppet states of zone-server/internal/protocol/packets.go. A float is its bit pattern.
use zone.Prelude.{
  ℕ, ◌+◌, ◌-◌, ◌*◌, ◌≡◌, ◌∙◌, sym, refl, ap, min, Option, none, some, List, [], ◌∷◌, ◌++◌, arith,
  length, length-take, take, replicate, ltb, if◌then◌else◌,
}
use mathlib.Core.List.{append-nil}
use zone.Protocol.Wire.{
  Result, ok, ◌>>=◌, byte_at, u16_at, u32_at, put_u16, put_u32, IsU16, IsU32, u16_put, u32_put,
  Written, bytes, failed, payload_exceeds_mtu, max_safe_udp_packet_size,
}
use zone.Protocol.Counted.{
  Codec, AllFit, AllFit-take, put_counted, get_counted, get_counted-put_counted, length-put_entries,
}

pub record AiStateEntry : Type 0 where
  pub entity_id : ℕ
  pub x : ℕ
  pub y : ℕ
  pub z : ℕ
  pub yaw : ℕ
  pub anim : ℕ

pub record AiStatePacket : Type 0 where
  pub count : ℕ
  pub entries : List AiStateEntry

abbrev pub max_ai_state_entries : ℕ
max_ai_state_entries = 32

abbrev pub ai_state_entry_wire_size : ℕ
ai_state_entry_wire_size = 19

unfoldable pub encode_ai_entry : AiStateEntry → List ℕ
encode_ai_entry e =
    put_u32 e.entity_id ++ put_u32 e.x ++ put_u32 e.y ++ put_u32 e.z ++ put_u16 e.yaw ++ e.anim ∷ []

unfoldable pub decode_ai_entry : List ℕ → AiStateEntry
decode_ai_entry src = record {
  entity_id = u32_at 0 src;
  x = u32_at 4 src;
  y = u32_at 8 src;
  z = u32_at 12 src;
  yaw = u16_at 16 src;
  anim = byte_at 18 src;
}

pub record FitsWire (e : AiStateEntry) : Type 0 where
  pub entity_id : IsU32 e.entity_id
  pub x : IsU32 e.x
  pub y : IsU32 e.y
  pub z : IsU32 e.z
  pub yaw : IsU16 e.yaw

pub decode-encode_ai_entry :
    (e : AiStateEntry) → FitsWire e → decode_ai_entry (encode_ai_entry e) ≡ e
unfolding decode_ai_entry encode_ai_entry
decode-encode_ai_entry e f = rw (u32_put e.entity_id f.entity_id) (
    rw (u32_put e.x f.x)
      (rw (u32_put e.y f.y) (rw (u32_put e.z f.z) (rw (u16_put e.yaw f.yaw) refl))))

pub length-encode_ai_entry : (e : AiStateEntry) → length (encode_ai_entry e) ≡ 19
unfolding encode_ai_entry
length-encode_ai_entry e = refl

abbrev pub ai_codec : Codec AiStateEntry
ai_codec = record {
  size = ai_state_entry_wire_size;
  encode = encode_ai_entry;
  decode = decode_ai_entry;
  Fits = FitsWire;
  length-encode = λ e f. length-encode_ai_entry e;
  decode-encode = decode-encode_ai_entry;
}

abbrev pub zero_ai_entry : AiStateEntry
zero_ai_entry = record { entity_id = 0; x = 0; y = 0; z = 0; yaw = 0; anim = 0 }

-- A nil state has no entries.
unfoldable pub write_ai_state : Option AiStatePacket → Written
write_ai_state none = bytes (put_counted ai_codec max_ai_state_entries 0 [])
write_ai_state (some s) =
    let count = min s.count max_ai_state_entries in
    if ltb max_safe_udp_packet_size (1 + count * ai_state_entry_wire_size)
    then failed payload_exceeds_mtu
    else bytes (put_counted ai_codec max_ai_state_entries count s.entries)

unfoldable pub read_ai_state_packet : List ℕ → Result (AiStatePacket × List ℕ)
read_ai_state_packet xs = do
  (r, rest) ← get_counted ai_codec max_ai_state_entries zero_ai_entry xs
  ok (record { count = r.count; entries = r.entries }, rest)

-- Puppet states in an array of 32 that fit their fields are written as a payload of one byte and 19
-- for each up to 32, and read as they were written: the count, cut to 32, and that many of the
-- entries, with zeros behind them and no byte left.
pub read-write_ai_state :
    (s : AiStatePacket)
    → length s.entries ≡ max_ai_state_entries
    → AllFit ai_codec s.entries
    → (payload : List ℕ) × (write_ai_state (some s) ≡ bytes payload)
      × (length payload ≡ 1 + min s.count 32 * 19)
      × (read_ai_state_packet payload
          ≡ ok (
            record {
              count = min s.count 32;
              entries =
                  take (min s.count 32) s.entries ++ replicate (32 - min s.count 32) zero_ai_entry;
            },
            [],
          ))
unfolding read_ai_state_packet write_ai_state
read-write_ai_state s whole fit = (payload, ground arith, long, back)
  where
    n : ℕ
    n = min s.count 32

    payload : List ℕ
    payload = put_counted ai_codec 32 n s.entries

    same : min n 32 ≡ n
    same = omega arith

    long : length payload ≡ 1 + n * 19
    long =
        unfold put_counted in
        rw same (
          omega (
            arith,
            length-put_entries ai_codec (take n s.entries) (AllFit-take ai_codec n s.entries fit),
            length-take n s.entries,
          ))

    back :
        read_ai_state_packet payload
        ≡ ok (
          record { count = n; entries = take n s.entries ++ replicate (32 - n) zero_ai_entry },
          [],
        )
    back =
        ap (λ xs. read_ai_state_packet xs) (sym (append-nil payload))
        ∙ rw
            (get_counted-put_counted ai_codec 32 n zero_ai_entry s.entries [] (omega arith) whole
              fit)
            (rw same refl)
