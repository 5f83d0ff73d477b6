-- ===== src/Re2/Video/RoundTrip.antt =====
-- One fragment of internal/re2/video.go, written and read back.
use runeverything.Re2.Video.{Video, encode_video, decode_video}
use runeverything.Re2.Message.{cut_sid, length-cut_sid}
use runeverything.Base.Bytes.{Bytes, be16, be32, read_be-be16, read_be-be32, make, flat, fill-flat}
use runeverything.Base.{
  ℕ, ◌+◌, ◌%◌, ◌^◌, ◌<◌, ◌≡◌, ap, ◌∙◌, some, List, [], ◌∷◌, ◌++◌, append-nil, arith, length,
  length-append, length-replicate, take-length_append, drop-length_append,
}

-- The layout of a fragment.
abbrev pub image : Video → Bytes
image v =
    length (cut_sid v.session_id) % 256
    ∷ (cut_sid v.session_id
        ++ (be32 v.frame_id ++ (v.flags ∷ (be16 v.part ++ (be16 v.parts ++ v.nal)))))

pieces : Video → List Bytes
pieces v =
    (length (cut_sid v.session_id) % 256 ∷ [])
    ∷ cut_sid v.session_id
    ∷ be32 v.frame_id
    ∷ (v.flags ∷ [])
    ∷ be16 v.part
    ∷ be16 v.parts
    ∷ v.nal
    ∷ []

flat-pieces : (v : Video) → flat (pieces v) ≡ image v
unfolding pieces
flat-pieces v = simp append-nil

pub length-image :
    (v : Video)
    → length (image v) ≡ 1 + length (cut_sid v.session_id) + 4 + 1 + 2 + 2 + length v.nal
length-image v = omega (
  arith,
  length-append (cut_sid v.session_id)
      (be32 v.frame_id ++ (v.flags ∷ (be16 v.part ++ (be16 v.parts ++ v.nal)))),
)

pub encode_video-image : (v : Video) → encode_video v ≡ image v
unfolding encode_video pieces
encode_video-image v =
    let n = length (cut_sid v.session_id) in
    let size = 1 + n + 4 + 1 + 2 + 2 + length v.nal in
    fill-flat (pieces v) (make size)
      (omega (arith, length-replicate {A = ℕ} size 0, ap length (flat-pieces v), length-image v))
    ∙ flat-pieces v

-- The fields are in the range of their Go types.
pub record IsVideo (v : Video) : Type 0 where
  pub frame_id_u32 : v.frame_id < 2 ^ 32
  pub part_u16 : v.part < 2 ^ 16
  pub parts_u16 : v.parts < 2 ^ 16

-- A fragment whose numbers are in the range of their Go types is read back, under the session id
-- cut to 255 bytes.
pub decode_video-encode_video :
    (v : Video)
    → IsVideo v
    → decode_video (encode_video v) ≡ some (record v { session_id = cut_sid v.session_id })
unfolding decode_video
decode_video-encode_video v h =
    let rest = be32 v.frame_id ++ (v.flags ∷ (be16 v.part ++ (be16 v.parts ++ v.nal))) in
    rw encode_video-image (
      ground (
        arith,
        length-cut_sid v.session_id,
        length-append (cut_sid v.session_id) rest,
        take-length_append (cut_sid v.session_id) rest,
        drop-length_append (cut_sid v.session_id) rest,
        read_be-be32 v.frame_id,
        read_be-be16 v.part,
        read_be-be16 v.parts,
      ))
