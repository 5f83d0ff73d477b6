-- ===== src/Reudp/Packet/RoundTrip.antt =====
-- What the encoders of internal/reudp/packet.go write, and that the decoders read it back.
use runeverything.Base.{
  ℕ, ◌+◌, ◌^◌, ◌≤◌, ◌<◌, ◌≡◌, ap, ◌∙◌, inl, inr, List, [], ◌∷◌, ◌++◌, append-nil, arith, ltb,
  lt→ltb, Bool-cases, length, take, length-append, length-take, length-replicate,
  take-length_append,
}
use runeverything.Base.Bytes.{
  Bytes, IsByte, be16, be32, write, read_be-be16, read_be-be32, read_be-be64, fill, flat, fill-flat,
}
use runeverything.Reudp.Packet.{
  Packet, ok, err, too_large, magic0, magic1, version, max_payload, max_packet, header_size, encode,
  decode, reserve, encode_ack, decode_ack,
}

-- The layout of a datagram.
abbrev pub header : Packet → Bytes
header p =
    magic0
    ∷ magic1
    ∷ version
    ∷ p.type
    ∷ p.flags
    ∷ 0
    ∷ (be32 p.route_hash ++ (be32 p.seq ++ (be32 p.ack ++ be16 (length p.payload))))

abbrev pub image : Packet → Bytes
image p = header p ++ p.payload

-- The fields are in the range of their Go types.
pub record IsPacket (p : Packet) : Type 0 where
  pub type_byte : IsByte p.type
  pub flags_byte : IsByte p.flags
  pub hash_u32 : p.route_hash < 2 ^ 32
  pub seq_u32 : p.seq < 2 ^ 32
  pub ack_u32 : p.ack < 2 ^ 32

length-reserve : (dst : Bytes) (n : ℕ) → length (reserve dst n) ≡ n
unfolding reserve
length-reserve dst n = ground (arith, length-replicate {A = ℕ} n 0, length-take n dst)

pieces : Packet → List Bytes
pieces p =
    (magic0 ∷ [])
    ∷ (magic1 ∷ [])
    ∷ (version ∷ [])
    ∷ (p.type ∷ [])
    ∷ (p.flags ∷ [])
    ∷ (0 ∷ [])
    ∷ be32 p.route_hash
    ∷ be32 p.seq
    ∷ be32 p.ack
    ∷ be16 (length p.payload)
    ∷ p.payload
    ∷ []

flat-pieces : (p : Packet) → flat (pieces p) ≡ image p
unfolding pieces
flat-pieces p = simp append-nil

-- Whatever the buffer held, the result is the layout: every byte of it is written.
pub encode-image :
    (p : Packet) (dst : Bytes) → length p.payload ≤ max_payload → encode p dst ≡ ok (image p)
unfolding encode pieces
encode-image p dst h =
    let b0 = reserve dst (header_size + length p.payload) in
    let whole : fill 0 (pieces p) b0 ≡ image p =
      fill-flat (pieces p) b0 (
        omega
          (arith, ap length (flat-pieces p), length-reserve dst (header_size + length p.payload)))
      ∙ flat-pieces p in
    elim (Bool-cases (ltb max_payload (length p.payload))) [
      | inl big ↦ absurd (ground arith)
      | inr fits ↦ rw fits (ap ok whole)
    ]

-- A packet that is too large for a datagram is refused.
pub encode_too_large :
    (p : Packet) (dst : Bytes) → max_payload < length p.payload → encode p dst ≡ err too_large
unfolding encode
encode_too_large p dst h = rw (lt→ltb _ _ h)

decode-image :
    (p : Packet) (rest : Bytes)
    → IsPacket p
    → length p.payload ≤ max_payload
    → decode (image p ++ rest) ≡ ok p
unfolding decode
decode-image p rest v h = ground (
  arith,
  read_be-be16 (length p.payload),
  read_be-be32 p.route_hash,
  read_be-be32 p.seq,
  read_be-be32 p.ack,
  take-length_append p.payload rest,
  length-append p.payload rest,
)

-- A packet that fits, with its fields in range, is encoded, into whatever buffer, and the decoder reads it back from the
-- front of any input that starts with the encoding.
pub decode-encode :
    (p : Packet) (dst rest : Bytes)
    → IsPacket p
    → length p.payload ≤ max_payload
    → (b : Bytes) × (encode p dst ≡ ok b) × (length b ≤ max_packet) × (decode (b ++ rest) ≡ ok p)
decode-encode p dst rest v h = (
  image p,
  encode-image p dst h,
  omega (arith, length-append (header p) p.payload),
  decode-image p rest v h,
)

-- An acknowledgement of 12 bytes, of a uint32 and a uint64, is read back; of its first 4 alone only the cumulative part.
pub decode_ack-encode_ack :
    (cum sack : ℕ)
    → cum < 2 ^ 32
    → sack < 2 ^ 64
    → (decode_ack (encode_ack cum sack) ≡ ok (cum, sack))
      × (decode_ack (take 4 (encode_ack cum sack)) ≡ ok (cum, 0))
unfolding decode_ack encode_ack write
decode_ack-encode_ack cum sack hc hs = ground (arith, read_be-be32 cum hc, read_be-be64 sack hs)
