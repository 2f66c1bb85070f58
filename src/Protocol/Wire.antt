-- ===== src/Protocol/Wire.antt =====
-- Bytes on the wire of zone-server/internal/protocol/packets.go and opcodes.go: little-endian
-- numbers, the packet header, and reads that come up short. `read_full` is `io.ReadFull` of Go's
-- standard library over what is left of the input.
use zone.Prelude.{
  ℕ, suc, ◌+◌, ◌*◌, ◌/◌, ◌%◌, ◌≤◌, ◌<◌, ◌≡◌, refl, List, [], ◌∷◌, ◌++◌, arith, length,
  length-append, take, drop, get_or, take-append_length, drop-append_length, ltb, ◌==◌,
  comparable_nat, if◌then◌else◌, Bool-cases, ◌⊎◌, inl, inr,
}

pub data ReadError : Type 0 where
  eof unexpected_eof : ReadError

pub data Result {ℓ} (A : Type ℓ) : Type ℓ where
  ok : A → Result A
  err : ReadError → Result A

infixl 5 ◌>>=◌
abbrev pub ◌>>=◌ {ℓ κ} : {A : Type ℓ} {B : Type κ} → Result A → (A → Result B) → Result B
ok a >>= f = f a
err e >>= f = err e

unfoldable pub read_full : ℕ → List ℕ → Result (List ℕ × List ℕ)
read_full n xs =
    if ltb (length xs) n
    then (if length xs == 0 then err eof else err unexpected_eof)
    else ok (take n xs, drop n xs)

pub read_full-append :
    (n : ℕ) (xs ys : List ℕ) → length xs ≡ n → read_full n (xs ++ ys) ≡ ok (xs, ys)
unfolding read_full
read_full-append n xs ys h =
    ground (arith, length-append xs ys, take-append_length n xs ys h, drop-append_length n xs ys h)

abbrev pub put_u16 : ℕ → List ℕ
put_u16 v = v % 256 ∷ v / 256 % 256 ∷ []

abbrev pub put_u32 : ℕ → List ℕ
put_u32 v = v % 256 ∷ v / 256 % 256 ∷ v / 65536 % 256 ∷ v / 16777216 % 256 ∷ []

abbrev pub byte_at : ℕ → List ℕ → ℕ
byte_at i xs = get_or xs i 0

abbrev pub u16_at : ℕ → List ℕ → ℕ
u16_at i xs = byte_at i xs + 256 * byte_at (suc i) xs

abbrev pub u32_at : ℕ → List ℕ → ℕ
u32_at i xs =
    byte_at i xs
    + 256 * byte_at (suc i) xs
    + 65536 * byte_at (suc (suc i)) xs
    + 16777216 * byte_at (suc (suc (suc i))) xs

abbrev pub IsU16 : ℕ → Type 0
IsU16 v = v < 65536

abbrev pub IsU32 : ℕ → Type 0
IsU32 v = v < 4_294_967_296

abbrev pub IsByte : ℕ → Type 0
IsByte v = v < 256

abbrev pub header_magic : ℕ
header_magic = 0x5A4F

abbrev pub protocol_ver : ℕ
protocol_ver = 1

abbrev pub packet_header_wire_size : ℕ
packet_header_wire_size = 12

abbrev pub max_safe_udp_packet_size : ℕ
max_safe_udp_packet_size = 1200

pub record PacketHeader : Type 0 where
  pub magic : ℕ
  pub protocol : ℕ
  pub flags_channel : ℕ
  pub sequence_num : ℕ
  pub opcode : ℕ
  pub payload_length : ℕ

unfoldable pub put_header : ℕ → ℕ → ℕ → ℕ → List ℕ
put_header opcode seq flags payload_len =
    put_u16 header_magic
    ++ protocol_ver ∷ flags ∷ put_u32 seq
    ++ put_u16 opcode
    ++ put_u16 payload_len

-- `ReadHeader`, with what is left of the input.
unfoldable pub read_header : List ℕ → Result (PacketHeader × List ℕ)
read_header xs = do
  (b, rest) ← read_full packet_header_wire_size xs
  ok (
    record {
      magic = u16_at 0 b;
      protocol = byte_at 2 b;
      flags_channel = byte_at 3 b;
      sequence_num = u32_at 4 b;
      opcode = u16_at 8 b;
      payload_length = u16_at 10 b;
    },
    rest,
  )

pub u16_put : (v : ℕ) → IsU16 v → v % 256 + 256 * (v / 256 % 256) ≡ v
u16_put v h = omega arith

pub u32_put :
    (v : ℕ)
    → IsU32 v
    → v % 256 + 256 * (v / 256 % 256) + 65536 * (v / 65536 % 256) + 16777216 * (v / 16777216 % 256)
      ≡ v
u32_put v h = omega arith

-- The header that a reader gets is the one that was written: magic number and protocol version,
-- the flags, the sequence number, the opcode and the length of the payload.
pub read_header-put_header :
    (opcode seq flags payload_len : ℕ) (rest : List ℕ)
    → IsU16 opcode
    → IsU32 seq
    → IsU16 payload_len
    → read_header (put_header opcode seq flags payload_len ++ rest)
      ≡ ok (
        record {
          magic = header_magic;
          protocol = protocol_ver;
          flags_channel = flags;
          sequence_num = seq;
          opcode = opcode;
          payload_length = payload_len;
        },
        rest,
      )
unfolding read_header put_header
read_header-put_header opcode seq flags payload_len rest ho hs hl =
    rw (read_full-append 12 (put_header opcode seq flags payload_len) rest refl)
      (rw (u32_put seq hs, u16_put opcode ho, u16_put payload_len hl) refl)

pub read_full_cases :
    (n : ℕ) (xs : List ℕ)
    → (length xs < n) × ((e : ReadError) × (read_full n xs ≡ err e))
      ⊎ (n ≤ length xs) × (read_full n xs ≡ ok (take n xs, drop n xs))
unfolding read_full
read_full_cases n xs = elim (Bool-cases (ltb (length xs) n)) [
  | inl short ↦ elim (Bool-cases (length xs == 0)) [
    | inl empty ↦ inl (ground arith, (eof, rw short (rw empty refl)))
    | inr some_left ↦ inl (ground arith, (unexpected_eof, rw short (rw some_left refl)))
  ]
  | inr enough ↦ inr (ground arith, rw enough refl)
]

pub data WriteError : Type 0 where
  payload_exceeds_mtu payload_too_large : WriteError

pub data Written : Type 0 where
  bytes : List ℕ → Written
  failed : WriteError → Written

-- The end of `WritePacket`, for every payload but a snapshot: the header in front of the bytes that
-- the payload was serialised to. A write to the destination does not fail.
unfoldable pub finish_packet : ℕ → ℕ → ℕ → List ℕ → Written
finish_packet opcode seq flags buf =
    if ltb max_safe_udp_packet_size (length buf)
    then failed payload_exceeds_mtu
    else if ltb 65535 (length buf)
    then failed payload_too_large
    else bytes (put_header opcode seq flags (length buf % 65536) ++ buf)

-- With an opcode of 16 bits and a sequence number of 32, a packet is refused if its payload has
-- more than 1200 bytes, and is sent otherwise; the header that a reader gets from it has the
-- opcode, the sequence number, the flags and the length of the payload, which is what is left of
-- the input.
pub read_header-finish_packet :
    (opcode seq flags : ℕ) (buf : List ℕ)
    → IsU16 opcode
    → IsU32 seq
    → (1200 < length buf) × (finish_packet opcode seq flags buf ≡ failed payload_exceeds_mtu)
      ⊎ (length buf ≤ 1200)
        × ((out : List ℕ) × (finish_packet opcode seq flags buf ≡ bytes out)
            × (read_header out
                ≡ ok (
                  record {
                    magic = header_magic;
                    protocol = protocol_ver;
                    flags_channel = flags;
                    sequence_num = seq;
                    opcode = opcode;
                    payload_length = length buf;
                  },
                  buf,
                )))
unfolding finish_packet
read_header-finish_packet opcode seq flags buf ho hs =
    elim (Bool-cases (ltb max_safe_udp_packet_size (length buf))) [
      | inl big ↦ inl (ground arith, ground arith)
      | inr fits ↦
          let small : length buf ≤ 1200 = ground arith in
          let len : length buf % 65536 ≡ length buf = omega arith in
          inr (
            small,
            (
              put_header opcode seq flags (length buf) ++ buf,
              rw fits (rw len (ground arith)),
              read_header-put_header opcode seq flags (length buf) buf ho hs (omega arith),
            ),
          )
    ]
