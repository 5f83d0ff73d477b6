-- ===== src/Re2/Video.antt =====
-- internal/re2/video.go: the fragments of a video frame.
pub mod RoundTrip
pub mod Fragments
use runeverything.Base.{
  ℕ, zero, suc, ◌+◌, ◌-◌, ◌*◌, ◌/◌, ◌%◌, ◌^◌, Option, none, some, List, [], ◌∷◌, ltb, ◌==◌,
  if◌then◌else◌, length, get_or, take, drop, slice,
}
use runeverything.Base.Bytes.{Bytes, be16, be32, read_be, make, write}
use runeverything.Re2.Message.{cut_sid}

pub record Video : Type 0 where
  pub session_id : Bytes
  pub frame_id : ℕ  -- uint32
  pub flags : ℕ  -- byte
  pub part : ℕ  -- uint16
  pub parts : ℕ  -- uint16
  pub nal : Bytes

-- The words are converted to their width by the writers.
unfoldable pub encode_video : Video → Bytes
unfolding cut_sid
encode_video v =
    let sid = cut_sid v.session_id in
    let n = length sid in
    let b0 = make (1 + n + 4 + 1 + 2 + 2 + length v.nal) in
    let b1 = write 0 (n % 256 ∷ []) b0 in
    let b2 = write 1 sid b1 in
    let b3 = write (1 + n) (be32 v.frame_id) b2 in
    let b4 = write (1 + n + 4) (v.flags ∷ []) b3 in
    let b5 = write (1 + n + 4 + 1) (be16 v.part) b4 in
    let b6 = write (1 + n + 4 + 1 + 2) (be16 v.parts) b5 in write (1 + n + 4 + 1 + 2 + 2) v.nal b6

-- `none` is ErrVideoShort.
unfoldable pub decode_video : Bytes → Option Video
decode_video body =
    if ltb (length body) 1
    then none
    else (let n = get_or body 0 0 in
        if ltb (length body) (1 + n + 4 + 1 + 2 + 2)
        then none
        else (let b = drop (1 + n) body in
            some (record {
              session_id = slice 1 (1 + n) body;
              frame_id = read_be 0 (take 4 b);
              flags = get_or b 4 0;
              part = read_be 0 (slice 5 7 b);
              parts = read_be 0 (slice 7 9 b);
              nal = drop 9 b;
            })))

-- The room for the encoding in one fragment.
unfoldable pub chunk_size : Bytes → ℕ → ℕ
chunk_size session_id max_chunk =
    let max_chunk' = if ltb max_chunk 64 then 64 else max_chunk in
    let overhead = if ltb 255 (length session_id) then 1 + 255 + 9 else 1 + length session_id + 9 in
    let chunk = max_chunk' - overhead in if ltb chunk 32 then 32 else chunk

-- The loop over the parts: `rounds` are left, `i` is the next part.
unfoldable pub fragment_loop : Bytes → ℕ → ℕ → Bytes → ℕ → ℕ → ℕ → ℕ → List Bytes
fragment_loop sid frame_id flags annex_b chunk nparts zero i = []
fragment_loop sid frame_id flags annex_b chunk nparts (suc rounds) i =
    encode_video (record {
      session_id = sid;
      frame_id = frame_id;
      flags = flags;
      part = i % 2 ^ 16;
      parts = nparts % 2 ^ 16;
      nal =
          slice (i * chunk)
            (if ltb (length annex_b) (i * chunk + chunk) then length annex_b else i * chunk + chunk)
            annex_b;
    })
    ∷ fragment_loop sid frame_id flags annex_b chunk nparts rounds (i + 1)

unfoldable pub nparts_of : Bytes → ℕ → ℕ
nparts_of annex_b chunk = (length annex_b + chunk - 1) / chunk

unfoldable pub fragment_nal : Bytes → ℕ → ℕ → Bytes → ℕ → List Bytes
unfolding chunk_size nparts_of
fragment_nal sid frame_id flags annex_b max_chunk =
    let chunk = chunk_size sid max_chunk in
    let nparts = nparts_of annex_b chunk in
    if length annex_b == 0
    then encode_video (record {
      session_id = sid;
      frame_id = frame_id;
      flags = flags;
      part = 0;
      parts = 1;
      nal = [];
    })
      ∷ []
    else fragment_loop sid frame_id flags annex_b chunk nparts nparts 0
