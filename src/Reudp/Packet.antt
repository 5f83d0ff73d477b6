-- ===== src/Reudp/Packet.antt =====
-- internal/reudp/packet.go: the datagram format, with its encoder and decoder.
pub mod RoundTrip
pub mod Decode
use runeverything.Base.{
  ℕ, ◌+◌, not, ◌||◌, [], ◌∷◌, ltb, ◌==◌, if◌then◌else◌, length, get_or, take, slice,
}
use runeverything.Base.Bytes.{Bytes, be16, be32, be64, read_be, make, write}

abbrev pub magic0 : ℕ
magic0 = 0x52

abbrev pub magic1 : ℕ
magic1 = 0x55

abbrev pub version : ℕ
version = 0x01

abbrev pub header_size : ℕ
header_size = 20

abbrev pub max_payload : ℕ
max_payload = 1200

abbrev pub max_packet : ℕ
max_packet = header_size + max_payload

abbrev pub type_assoc : ℕ
type_assoc = 0x01

abbrev pub type_assoc_ok : ℕ
type_assoc_ok = 0x02

abbrev pub type_data : ℕ
type_data = 0x10

abbrev pub type_ack : ℕ
type_ack = 0x11

abbrev pub type_ping : ℕ
type_ping = 0x1e

abbrev pub type_pong : ℕ
type_pong = 0x1f

abbrev pub type_error : ℕ
type_error = 0x20

abbrev pub flag_reliable : ℕ
flag_reliable = 1

abbrev pub flag_latest : ℕ
flag_latest = 4

pub data PacketError : Type 0 where
  bad_magic bad_version too_large short ack_too_short : PacketError

-- Go's pair of a value and an error.
pub data Result {ℓ} (A : Type ℓ) : Type ℓ where
  ok : A → Result A
  err : PacketError → Result A

pub record Packet : Type 0 where
  pub type : ℕ  -- byte
  pub flags : ℕ  -- byte
  pub route_hash : ℕ  -- uint32
  pub seq : ℕ  -- uint32
  pub ack : ℕ  -- uint32
  pub payload : Bytes

-- `dst` is the buffer's length and its whole capacity: `dst[:need]` if that is large enough, and a
-- new buffer of zeros otherwise.
reserve : Bytes → ℕ → Bytes
reserve dst need = if ltb (length dst) need then make need else take need dst

unfoldable pub encode : Packet → Bytes → Result Bytes
unfolding reserve
encode p dst =
    if ltb max_payload (length p.payload)
    then err too_large
    else (let b0 = reserve dst (header_size + length p.payload) in
        let b1 = write 0 (magic0 ∷ []) b0 in
        let b2 = write 1 (magic1 ∷ []) b1 in
        let b3 = write 2 (version ∷ []) b2 in
        let b4 = write 3 (p.type ∷ []) b3 in
        let b5 = write 4 (p.flags ∷ []) b4 in
        let b6 = write 5 (0 ∷ []) b5 in
        let b7 = write 6 (be32 p.route_hash) b6 in
        let b8 = write 10 (be32 p.seq) b7 in
        let b9 = write 14 (be32 p.ack) b8 in
        let b10 = write 18 (be16 (length p.payload)) b9 in ok (write header_size p.payload b10))

decode_body : Bytes → Result Packet
decode_body b =
    let plen = read_be 0 (slice 18 20 b) in
    if ltb max_payload plen || ltb (length b) (header_size + plen)
    then err too_large
    else ok (record {
      type = get_or b 3 0;
      flags = get_or b 4 0;
      route_hash = read_be 0 (slice 6 10 b);
      seq = read_be 0 (slice 10 14 b);
      ack = read_be 0 (slice 14 18 b);
      payload = slice header_size (header_size + plen) b;
    })

-- The length is tested before a byte is read, so the reads are in range.
unfoldable pub decode : Bytes → Result Packet
unfolding decode_body
decode b =
    if ltb (length b) header_size
    then err short
    else if not (get_or b 0 0 == magic0) || not (get_or b 1 0 == magic1)
    then err bad_magic
    else if not (get_or b 2 0 == version)
    then err bad_version
    else decode_body b

unfoldable pub encode_ack : ℕ → ℕ → Bytes
encode_ack cum sack = write 4 (be64 sack) (write 0 (be32 cum) (make 12))

-- The selective part is optional on the wire, and 0 if it is missing.
unfoldable pub decode_ack : Bytes → Result (ℕ × ℕ)
decode_ack b =
    if ltb (length b) 4
    then err ack_too_short
    else ok (read_be 0 (slice 0 4 b), if ltb (length b) 12 then 0 else read_be 0 (slice 4 12 b))
