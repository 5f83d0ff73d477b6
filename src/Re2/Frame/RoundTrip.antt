-- ===== src/Re2/Frame/RoundTrip.antt =====
-- What `EncodeFrame` of internal/re2/frame.go writes, and which frames `DecodeFrame` reads back.
use runeverything.Base.Bytes.{read_be-be32, make, flat, fill-flat, Bytes, be32}
use runeverything.Base.{
  ℕ, ◌+◌, ◌^◌, ◌≤◌, ◌<◌, ◌≡◌, refl, ap, ◌∙◌, inl, inr, true, false, List, [], ◌∷◌, ◌++◌, append-nil,
  append_assoc, arith, ltb, ◌==◌, if◌then◌else◌, Bool-cases, length, length-append,
  length-replicate, take-length_append, drop-length_append,
}
use runeverything.Re2.Frame.{
  ◌>>=◌, err, read_full, decode_payload, magic0, magic1, version, max_payload, max_route,
  route_too_long, max_route, encode_frame, decode_frame, header_bytes, Frame, ok,
}

pieces : Frame → List Bytes
pieces f =
    (magic0 ∷ [])
    ∷ (magic1 ∷ [])
    ∷ (version ∷ [])
    ∷ (f.type ∷ [])
    ∷ be32 (length f.route_id)
    ∷ f.route_id
    ∷ be32 (length f.payload)
    ∷ []

-- The layout of a frame.
abbrev pub image : Frame → Bytes
image f =
    magic0
    ∷ magic1
    ∷ version
    ∷ f.type
    ∷ (be32 (length f.route_id) ++ (f.route_id ++ (be32 (length f.payload) ++ f.payload)))

flat-pieces : (f : Frame) → flat (pieces f) ++ f.payload ≡ image f
unfolding pieces
flat-pieces f = simp (append-nil, append_assoc)

header_bytes-pieces : (f : Frame) → header_bytes f ≡ flat (pieces f)
unfolding header_bytes pieces
header_bytes-pieces f = fill-flat (pieces f) (make (12 + length f.route_id)) (
    omega (
      arith,
      length-replicate {A = ℕ} (12 + length f.route_id) 0,
      length-append f.route_id (be32 (length f.payload) ++ []),
    ))

empty_of_length : (xs : Bytes) → (length xs == 0) ≡ true → xs ≡ []
empty_of_length [] h = refl
empty_of_length (x ∷ xs) h = ground arith

-- A frame whose payload fits is appended to what was written.
pub encode_frame-image :
    (w : Bytes) (f : Frame) → length f.payload ≤ max_payload → encode_frame w f ≡ ok (w ++ image f)
unfolding encode_frame
encode_frame-image w f h =
    let fits : ltb max_payload (length f.payload) ≡ false = ground arith in
    let whole : (w ++ header_bytes f) ++ f.payload ≡ w ++ image f =
      append_assoc w (header_bytes f) f.payload
      ∙ ap (◌++◌ w) (ap (λ t. t ++ f.payload) (header_bytes-pieces f) ∙ flat-pieces f) in
    elim (Bool-cases (length f.payload == 0)) [
      | inl e ↦
          ground (arith, fits, whole, empty_of_length f.payload e, append-nil (w ++ header_bytes f))
      | inr e ↦ ground (arith, fits, whole, e)
    ]

pub read_full-append : (xs rest : Bytes) → read_full (length xs) (xs ++ rest) ≡ ok (xs, rest)
unfolding read_full
read_full-append xs rest =
    ground (arith, length-append xs rest, take-length_append xs rest, drop-length_append xs rest)

decode_payload-image :
    (type : ℕ) (route payload rest : Bytes)
    → length payload ≤ max_payload
    → decode_payload type route (be32 (length payload) ++ (payload ++ rest))
      ≡ ok (record { type = type; route_id = route; payload = payload }, rest)
unfolding decode_payload
decode_payload-image type route payload rest h =
    let four = read_full-append (be32 (length payload)) (payload ++ rest) in
    let fits : ltb max_payload (length payload) ≡ false = ground arith in
    simp (four, read_be-be32 (length payload) (omega arith), fits, read_full-append payload rest)

decode_header :
    (type n : ℕ) (r : Bytes)
    → n < 2 ^ 32
    → decode_frame (magic0 ∷ magic1 ∷ version ∷ type ∷ (be32 n ++ r)) ≡ (
        if ltb max_route n
        then err route_too_long
        else (read_full n r >>= λ (p : Bytes × Bytes). decode_payload type p.0 p.1))
unfolding decode_frame
decode_header type n r h =
    let eight = read_full-append (magic0 ∷ magic1 ∷ version ∷ type ∷ be32 n) r in
    simp (eight, read_be-be32 n h)

-- What follows the length of the route.
abbrev tail_bytes : Frame → Bytes
tail_bytes f = f.route_id ++ (be32 (length f.payload) ++ f.payload)

-- A frame with a route of at most 512 bytes and a payload of at most a megabyte is encoded, and
-- read back from the front of any input, which keeps what follows the frame.
pub decode_frame-encode_frame :
    (f : Frame) (rest : Bytes)
    → length f.route_id ≤ max_route
    → length f.payload ≤ max_payload
    → (b : Bytes) × (encode_frame [] f ≡ ok b) × (decode_frame (b ++ rest) ≡ ok (f, rest))
decode_frame-encode_frame f rest hr hp = (
  image f,
  encode_frame-image [] f hp,
  decode_header f.type (length f.route_id) (tail_bytes f ++ rest) (omega arith)
      ∙ (let short : ltb max_route (length f.route_id) ≡ false = ground arith in
          let route =
            read_full-append f.route_id ((be32 (length f.payload) ++ f.payload) ++ rest) in
          let assoc = append_assoc f.route_id (be32 (length f.payload) ++ f.payload) rest in
          rw (short, assoc, route) (decode_payload-image f.type f.route_id f.payload rest hp)),
)

-- A frame whose route has more than 512 bytes (and fewer than 2 ^ 32), with a payload of at most a
-- megabyte, is encoded without an error, and the reader refuses the encoding, whatever follows it.
encode_frame_unreadable :
    (f : Frame) (rest : Bytes)
    → max_route < length f.route_id
    → length f.route_id < 2 ^ 32
    → length f.payload ≤ max_payload
    → (b : Bytes) × (encode_frame [] f ≡ ok b) × (decode_frame (b ++ rest) ≡ err route_too_long)
encode_frame_unreadable f rest hr hw hp = (
  image f,
  encode_frame-image [] f hp,
  decode_header f.type (length f.route_id) (tail_bytes f ++ rest) (omega arith)
      ∙ (let long : ltb max_route (length f.route_id) ≡ true = ground arith in rw long),
)
