-- ===== src/Re2/Frame.antt =====
-- internal/re2/frame.go: the outer frame that the relay sees. A reader is the list of the bytes
-- that it still has, a writer the list of those written.
pub mod RoundTrip
use runeverything.Base.{
  ℕ, ◌+◌, ◌^◌, not, ◌||◌, [], ◌∷◌, ◌++◌, ltb, ◌==◌, if◌then◌else◌, length, get_or, take, drop,
  slice,
}
use runeverything.Base.Bytes.{Bytes, be32, read_be, make, write}

abbrev pub magic0 : ℕ
magic0 = 0x52

abbrev pub magic1 : ℕ
magic1 = 0x32

abbrev pub version : ℕ
version = 0x02

abbrev pub max_payload : ℕ
max_payload = 2 ^ 20

abbrev pub max_route : ℕ
max_route = 512

abbrev pub type_noise : ℕ
type_noise = 0x10

abbrev pub type_tunnel : ℕ
type_tunnel = 0x11

abbrev pub type_register_ok : ℕ
type_register_ok = 0x02

abbrev pub type_pair_ack : ℕ
type_pair_ack = 0x05

abbrev pub type_bind_ok : ℕ
type_bind_ok = 0x07

abbrev pub type_pong : ℕ
type_pong = 0x1f

abbrev pub type_error : ℕ
type_error = 0x20

pub data FrameError : Type 0 where
  bad_magic bad_version too_large route_too_long unexpected_eof : FrameError

pub data Result {ℓ} (A : Type ℓ) : Type ℓ where
  ok : A → Result A
  err : FrameError → Result A

infixl 5 ◌>>=◌
abbrev pub ◌>>=◌ {ℓ κ} : {A : Type ℓ} {B : Type κ} → Result A → (A → Result B) → Result B
ok a >>= f = f a
err e >>= f = err e

pub record Frame : Type 0 where
  pub type : ℕ  -- byte
  pub route_id : Bytes
  pub payload : Bytes

header_bytes : Frame → Bytes
header_bytes f =
    let n = length f.route_id in
    let h0 = make (12 + n) in
    let h1 = write 0 (magic0 ∷ []) h0 in
    let h2 = write 1 (magic1 ∷ []) h1 in
    let h3 = write 2 (version ∷ []) h2 in
    let h4 = write 3 (f.type ∷ []) h3 in
    let h5 = write 4 (be32 n) h4 in
    let h6 = write 8 f.route_id h5 in write (8 + n) (be32 (length f.payload)) h6

unfoldable pub encode_frame : Bytes → Frame → Result Bytes
unfolding header_bytes
encode_frame w f =
    if ltb max_payload (length f.payload)
    then err too_large
    else (let w' = w ++ header_bytes f in
        ok (if length f.payload == 0 then w' else w' ++ f.payload))

-- `io.ReadFull` into a buffer of `n` bytes.
unfoldable pub read_full : ℕ → Bytes → Result (Bytes × Bytes)
read_full n r = if ltb (length r) n then err unexpected_eof else ok (take n r, drop n r)

decode_payload : ℕ → Bytes → Bytes → Result (Frame × Bytes)
unfolding read_full
decode_payload type route r = do
  (plen_buf, r1) ← read_full 4 r
  let plen = read_be 0 plen_buf
  if ltb max_payload plen then err too_large else do
    (payload, r2) ← read_full plen r1
    ok (record { type = type; route_id = route; payload = payload }, r2)

unfoldable pub decode_frame : Bytes → Result (Frame × Bytes)
unfolding decode_payload read_full
decode_frame r = do
  (fixed, r1) ← read_full 8 r
  let route_len = read_be 0 (slice 4 8 fixed)
  if not (get_or fixed 0 0 == magic0) || not (get_or fixed 1 0 == magic1)
      then err bad_magic
      else if not (get_or fixed 2 0 == version)
      then err bad_version
      else if ltb max_route route_len
      then err route_too_long
      else do (route, r2) ← read_full route_len r1; decode_payload (get_or fixed 3 0) route r2
