-- ===== src/Protocol/GroupState.antt =====
-- The party roster of zone-server/internal/protocol/packets.go. A field of text is the list of its
-- bytes.
use zone.Prelude.{
  ℕ, ◌-◌, ◌≡◌, ◌∙◌, sym, refl, ap, min, Option, none, some, List, [], ◌∷◌, ◌++◌, arith, length,
  length-append, take, drop, take-append_length, drop-append_length, replicate,
}
use mathlib.Core.List.{append-nil}
use zone.Protocol.Wire.{Result, ok, ◌>>=◌, byte_at, u32_at, put_u32, IsU32, u32_put}
use zone.Protocol.Counted.{Codec, AllFit, put_counted, get_counted, get_counted-put_counted}

pub record GroupStateMember : Type 0 where
  pub session_id : ℕ
  pub name : List ℕ
  pub faction : List ℕ
  pub is_leader : ℕ

pub record GroupState : Type 0 where
  pub member_count : ℕ
  pub members : List GroupStateMember

abbrev pub max_group_members : ℕ
max_group_members = 8

-- What `binary.Write` of Go's standard library gives for a member, and `binary.Read` takes.
unfoldable pub encode_member : GroupStateMember → List ℕ
encode_member m = put_u32 m.session_id ++ (m.name ++ (m.faction ++ m.is_leader ∷ []))

unfoldable pub decode_member : List ℕ → GroupStateMember
decode_member src = record {
  session_id = u32_at 0 src;
  name = take 32 (drop 4 src);
  faction = take 16 (drop 32 (drop 4 src));
  is_leader = byte_at 0 (drop 16 (drop 32 (drop 4 src)));
}

pub record FitsWire (m : GroupStateMember) : Type 0 where
  pub session_id : IsU32 m.session_id
  pub name : length m.name ≡ 32
  pub faction : length m.faction ≡ 16

pub decode-encode_member : (m : GroupStateMember) → FitsWire m → decode_member (encode_member m) ≡ m
unfolding decode_member encode_member
decode-encode_member m f =
    rw
      (
        u32_put m.session_id f.session_id,
        take-append_length 32 m.name (m.faction ++ m.is_leader ∷ []) f.name,
        drop-append_length 32 m.name (m.faction ++ m.is_leader ∷ []) f.name,
        take-append_length 16 m.faction (m.is_leader ∷ []) f.faction,
        drop-append_length 16 m.faction (m.is_leader ∷ []) f.faction,
      )
      refl

pub length-encode_member : (m : GroupStateMember) → FitsWire m → length (encode_member m) ≡ 53
unfolding encode_member
length-encode_member m f = omega (
  arith,
  length-append m.name (m.faction ++ m.is_leader ∷ []),
  length-append m.faction (m.is_leader ∷ []),
  f.name,
  f.faction,
)

abbrev pub member_codec : Codec GroupStateMember
member_codec = record {
  size = 53;
  encode = encode_member;
  decode = decode_member;
  Fits = FitsWire;
  length-encode = length-encode_member;
  decode-encode = decode-encode_member;
}

abbrev pub zero_member : GroupStateMember
zero_member = record {
  session_id = 0;
  name = replicate 32 0;
  faction = replicate 16 0;
  is_leader = 0;
}

-- The count is cut to the length of the array and to 8.
unfoldable pub write_group_state : Option GroupState → List ℕ
write_group_state none = []
write_group_state (some s) =
    put_counted member_codec max_group_members (min s.member_count (length s.members)) s.members

unfoldable pub read_group_state : List ℕ → Result (GroupState × List ℕ)
read_group_state xs = do
  (r, rest) ← get_counted member_codec max_group_members zero_member xs
  ok (record { member_count = r.count; members = r.entries }, rest)

-- A roster whose array has 8 members with a number of 32 bits and texts of the field lengths is
-- read as it was written: the count, cut to 8, and that many members in their order, with zeros
-- behind them and no byte left.
pub read-write_group_state :
    (s : GroupState)
    → length s.members ≡ max_group_members
    → AllFit member_codec s.members
    → read_group_state (write_group_state (some s))
      ≡ ok (
        record {
          member_count = min s.member_count 8;
          members =
              take (min s.member_count 8) s.members
              ++ replicate (8 - min s.member_count 8) zero_member;
        },
        [],
      )
unfolding read_group_state write_group_state
read-write_group_state s whole fit =
    let payload = put_counted member_codec 8 (min s.member_count 8) s.members in
    let same : min (min s.member_count 8) 8 ≡ min s.member_count 8 = omega arith in
    rw whole (
      ap (λ xs. read_group_state xs) (sym (append-nil payload))
      ∙ rw
          (get_counted-put_counted member_codec 8 (min s.member_count 8) zero_member s.members []
            (omega arith) whole fit)
          (rw same refl))
