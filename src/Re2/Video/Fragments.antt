-- ===== src/Re2/Video/Fragments.antt =====
-- `FragmentNAL` of internal/re2/video.go: the fragments of a frame hold the whole frame.
use native.Mathlib.Nat.{zero-add, zero-mul, div-add-mod, mod-lt, le_trans}
use runeverything.Re2.Video.RoundTrip.{length-image, encode_video-image, decode_video-encode_video}
use runeverything.Re2.Message.{cut_sid}
use runeverything.Re2.Video.{
  encode_video, Video, chunk_size, nparts_of, fragment_nal, decode_video, fragment_loop,
}
use runeverything.Base.Bytes.{Bytes}
use runeverything.Base.{
  ℕ, zero, suc, ◌+◌, ◌-◌, ◌*◌, ◌/◌, ◌%◌, ◌^◌, ◌≤◌, ◌<◌, ◌≡◌, refl, ◌∙◌, ◌≢◌, inl, inr, false, ◌&&◌,
  Option, none, some, List, [], ◌∷◌, ◌++◌, append-nil, arith, ltb, ◌==◌, if◌then◌else◌, ltb→lt,
  Bool-cases, length, drop, All, slice, length-take, length-drop, take-append-drop, take-all,
  length-take-le, drop-add, drop-all,
}

-- What a client makes of the fragments: part `i` of `n` and those behind it, put together.
pub reassemble : ℕ → ℕ → List Bytes → Option Bytes
reassemble i n [] = if i == n then some [] else none
reassemble i n (b ∷ bs) =
    let rest = reassemble (i + 1) n bs in
    elim (decode_video b) [
      | none ↦ none
      | some v ↦
          if v.part == i && v.parts == n
          then elim rest [ none ↦ none | some nal ↦ some (v.nal ++ nal) ]
          else none
    ]

-- The piece of part `i`, and the pieces behind it.
piece_rest :
    (i chunk : ℕ) (annex_b : Bytes)
    → slice
          (i * chunk)
          (if ltb (length annex_b) (i * chunk + chunk) then length annex_b else i * chunk + chunk)
          annex_b
        ++ drop ((i + 1) * chunk) annex_b
      ≡ drop (i * chunk) annex_b
piece_rest i chunk annex_b =
    let here = drop (i * chunk) annex_b in
    let size = length-drop (i * chunk) annex_b in
    let next : (i + 1) * chunk ≡ i * chunk + chunk = omega arith in
    let width : i * chunk + chunk - i * chunk ≡ chunk = omega arith in
    elim (Bool-cases (ltb (length annex_b) (i * chunk + chunk))) [
      | inl last ↦
          let over : length annex_b < i * chunk + chunk = ltb→lt _ _ last in
          rw (last, next)
            (rw
              (
                take-all (length annex_b - i * chunk) here (omega (arith, size)),
                drop-all (i * chunk + chunk) annex_b (omega arith),
              )
              (append-nil here))
      | inr inner ↦
          rw (inner, next, width, drop-add (i * chunk) chunk annex_b) (take-append-drop chunk here)
    ]

module _ (sid : Bytes) (frame_id flags : ℕ) (annex_b : Bytes) (chunk n : ℕ) (small : n < 2 ^ 16)
    (id_u32 : frame_id < 2 ^ 32) where
  fragment : ℕ → Video
  fragment i = record {
    session_id = sid;
    frame_id = frame_id;
    flags = flags;
    part = i % 2 ^ 16;
    parts = n % 2 ^ 16;
    nal =
        slice (i * chunk)
          (if ltb (length annex_b) (i * chunk + chunk) then length annex_b else i * chunk + chunk)
          annex_b;
  }

  reassemble-fragment_loop :
      (rounds i : ℕ)
      → i + rounds ≡ n
      → length annex_b ≤ n * chunk
      → reassemble i n (fragment_loop sid frame_id flags annex_b chunk n rounds i)
        ≡ some (drop (i * chunk) annex_b)
  unfolding reassemble fragment_loop fragment
  reassemble-fragment_loop zero i e long =
      let whole : i ≡ n = omega arith in
      let done_ : drop (i * chunk) annex_b ≡ [] = rw whole (drop-all (n * chunk) annex_b long) in
      ground (arith, done_)
  reassemble-fragment_loop (suc rounds) i e long =
      let ih = reassemble-fragment_loop rounds (i + 1) (omega arith) long in
      let part : i % 2 ^ 16 ≡ i = omega arith in
      let parts : n % 2 ^ 16 ≡ n = omega arith in
      let back =
        decode_video-encode_video (fragment i)
          (record { frame_id_u32 = id_u32; part_u16 = omega arith; parts_u16 = omega arith }) in
      ground (arith, back, ih, part, parts, piece_rest i chunk annex_b)

chunk_covers : (len chunk : ℕ) → 0 < chunk → len ≤ (len + chunk - 1) / chunk * chunk
chunk_covers len chunk h =
    omega (arith, div-add-mod (len + chunk - 1) chunk, mod-lt (len + chunk - 1) h)

chunk_size-pos : (sid : Bytes) (max_chunk : ℕ) → 32 ≤ chunk_size sid max_chunk
unfolding chunk_size
chunk_size-pos sid max_chunk = ground arith

fragment_nal-loop :
    (sid : Bytes) (frame_id flags x : ℕ) (annex_b : Bytes) (max_chunk : ℕ)
    → fragment_nal sid frame_id flags (x ∷ annex_b) max_chunk
      ≡ fragment_loop sid frame_id flags
          (x ∷ annex_b)
          (chunk_size sid max_chunk)
          (nparts_of (x ∷ annex_b) (chunk_size sid max_chunk))
          (nparts_of (x ∷ annex_b) (chunk_size sid max_chunk))
          0
unfolding fragment_nal
fragment_nal-loop sid frame_id flags x annex_b max_chunk =
    let ne : (length (x ∷ annex_b) == 0) ≡ false = ground arith in rw ne

-- If a frame needs fewer than 65536 fragments, a client that takes the fragments of a frame in
-- their order finds the parts numbered from 0 on, out of the right number, and gets the whole
-- frame back, whatever the largest fragment.
pub reassemble-fragment_nal :
    (sid : Bytes) (frame_id flags : ℕ) (annex_b : Bytes) (max_chunk : ℕ)
    → annex_b ≢ []
    → frame_id < 2 ^ 32
    → nparts_of annex_b (chunk_size sid max_chunk) < 2 ^ 16
    → reassemble 0
        (nparts_of annex_b (chunk_size sid max_chunk))
        (fragment_nal sid frame_id flags annex_b max_chunk)
      ≡ some annex_b
unfolding fragment_nal
reassemble-fragment_nal sid frame_id flags [] max_chunk ne hf small = absurd (ne refl)
reassemble-fragment_nal sid frame_id flags (x ∷ annex_b) max_chunk ne hf small =
    let chunk = chunk_size sid max_chunk in
    let n = nparts_of (x ∷ annex_b) chunk in
    let covers : length (x ∷ annex_b) ≤ n * chunk =
      unfold nparts_of in chunk_covers _ chunk (omega (arith, chunk_size-pos sid max_chunk)) in
    rw fragment_nal-loop (
      reassemble-fragment_loop sid frame_id flags (x ∷ annex_b) chunk n small hf n 0 (zero-add n)
        covers
      ∙ rw (zero-mul chunk))

fragment_length :
    (v : Video) (size : ℕ)
    → length v.nal ≤ size
    → length (encode_video v) ≤ length (cut_sid v.session_id) + 10 + size
fragment_length v size h = rw encode_video-image (omega (arith, length-image v))

piece_length :
    (i chunk : ℕ) (annex_b : Bytes)
    → length (
        slice
          (i * chunk)
          (if ltb (length annex_b) (i * chunk + chunk) then length annex_b else i * chunk + chunk)
          annex_b)
      ≤ chunk
piece_length i chunk annex_b = elim (Bool-cases (ltb (length annex_b) (i * chunk + chunk))) [
  | inl last ↦ rw last (
      omega (
        arith,
        ltb→lt _ _ last,
        length-take-le (length annex_b - i * chunk) (drop (i * chunk) annex_b),
      ))
  | inr inner ↦
      rw inner
        (omega (arith, length-take-le (i * chunk + chunk - i * chunk) (drop (i * chunk) annex_b)))
]

fragment_loop_size :
    (sid : Bytes) (frame_id flags : ℕ) (annex_b : Bytes) (chunk n rounds i size : ℕ)
    → length (cut_sid sid) + 10 + chunk ≤ size
    → All (λ b. length b ≤ size) (fragment_loop sid frame_id flags annex_b chunk n rounds i)
unfolding fragment_loop
fragment_loop_size sid frame_id flags annex_b chunk n zero i size h = tt
fragment_loop_size sid frame_id flags annex_b chunk n (suc rounds) i size h = (
  le_trans (fragment_length _ chunk (piece_length i chunk annex_b)) h,
  fragment_loop_size sid frame_id flags annex_b chunk n rounds (i + 1) size h,
)

length-cut_sid_exact :
    (sid : Bytes) → length (cut_sid sid) ≡ (if ltb 255 (length sid) then 255 else length sid)
unfolding cut_sid
length-cut_sid_exact sid = elim (Bool-cases (ltb 255 (length sid))) [
  | inl long ↦ rw long (omega (arith, length-take 255 sid, ltb→lt _ _ long))
  | inr fits ↦ rw fits
]

chunk_size_room :
    (sid : Bytes) (max_chunk : ℕ)
    → 64 ≤ max_chunk
    → length (cut_sid sid) + 42 ≤ max_chunk
    → length (cut_sid sid) + 10 + chunk_size sid max_chunk ≤ max_chunk
unfolding chunk_size
chunk_size_room sid max_chunk h room = ground (arith, length-cut_sid_exact sid)

-- A fragment is no longer than the largest fragment asked for, if that leaves 32 bytes beside the
-- session id and the other fields.
fragment_size :
    (sid : Bytes) (frame_id flags : ℕ) (annex_b : Bytes) (max_chunk : ℕ)
    → 64 ≤ max_chunk
    → length (cut_sid sid) + 42 ≤ max_chunk
    → All (λ b. length b ≤ max_chunk) (fragment_nal sid frame_id flags annex_b max_chunk)
unfolding fragment_nal
fragment_size sid frame_id flags [] max_chunk h room =
    (le_trans (fragment_length _ 32 (omega arith)) (omega arith), tt)
fragment_size sid frame_id flags (x ∷ annex_b) max_chunk h room = rw fragment_nal-loop (
    fragment_loop_size sid frame_id flags (x ∷ annex_b) (chunk_size sid max_chunk)
      (nparts_of (x ∷ annex_b) (chunk_size sid max_chunk))
      (nparts_of (x ∷ annex_b) (chunk_size sid max_chunk)) 0 max_chunk
      (chunk_size_room sid max_chunk h room))
