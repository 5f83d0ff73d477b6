-- ===== src/Re2/Message.antt =====
-- internal/re2/frame.go: the inner messages and the terminal's data, inside the encryption.
use runeverything.Base.{
  ℕ, ◌+◌, ◌-◌, ◌%◌, ◌^◌, ◌≤◌, ◌<◌, ◌≡◌, ap, ◌∙◌, inl, inr, [], ◌∷◌, ◌++◌, append-nil, arith, ltb,
  if◌then◌else◌, Bool-cases, length, get_or, take, drop, slice, length-append, length-replicate,
  take-length_append, drop-length_append, length-take-le,
}
use runeverything.Base.Bytes.{read_be-be32, fill-flat, Bytes, be32, read_be, make, write}

pub data MessageError : Type 0 where
  inner_too_short inner_length_mismatch pty_body_empty pty_truncated : MessageError

pub data Result {ℓ} (A : Type ℓ) : Type ℓ where
  ok : A → Result A
  err : MessageError → Result A

unfoldable pub encode_inner : ℕ → Bytes → Bytes
encode_inner type body =
    write 5 body (write 1 (be32 (length body)) (write 0 (type ∷ []) (make (5 + length body))))

unfoldable pub decode_inner : Bytes → Result (ℕ × Bytes)
decode_inner b =
    if ltb (length b) 5
    then err inner_too_short
    else (let n = read_be 0 (slice 1 5 b) in
        if ltb (length b - 5) n
        then err inner_length_mismatch
        else ok (get_or b 0 0, slice 5 (5 + n) b))

-- A session id is cut to 255 bytes.
unfoldable pub cut_sid : Bytes → Bytes
cut_sid sid = if ltb 255 (length sid) then take 255 sid else sid

unfoldable pub encode_pty : Bytes → Bytes → Bytes
unfolding cut_sid
encode_pty session_id bytes =
    let sid = cut_sid session_id in
    let n = length sid in
    write (1 + n) bytes (write 1 sid (write 0 (n % 256 ∷ []) (make (1 + n + length bytes))))

unfoldable pub decode_pty : Bytes → Result (Bytes × Bytes)
decode_pty body =
    if ltb (length body) 1
    then err pty_body_empty
    else (let n = get_or body 0 0 in
        if ltb (length body) (1 + n)
        then err pty_truncated
        else ok (slice 1 (1 + n) body, drop (1 + n) body))

pub encode_inner-image :
    (type : ℕ) (body : Bytes) → encode_inner type body ≡ type ∷ (be32 (length body) ++ body)
unfolding encode_inner
encode_inner-image type body =
    fill-flat ((type ∷ []) ∷ be32 (length body) ∷ body ∷ []) (make (5 + length body))
      (omega (arith, length-replicate {A = ℕ} (5 + length body) 0, ap length (append-nil body)))
    ∙ simp append-nil

-- An inner message of fewer than 2 ^ 32 bytes is read back, also if more bytes follow it; they are
-- dropped.
decode_inner-encode_inner :
    (type : ℕ) (body rest : Bytes)
    → length body < 2 ^ 32
    → decode_inner (encode_inner type body ++ rest) ≡ ok (type, body)
unfolding decode_inner
decode_inner-encode_inner type body rest h = rw encode_inner-image (
    ground
      (arith, read_be-be32 (length body), length-append body rest, take-length_append body rest))

pub length-cut_sid : (sid : Bytes) → length (cut_sid sid) ≤ 255
unfolding cut_sid
length-cut_sid sid = elim (Bool-cases (ltb 255 (length sid))) [
  | inl long ↦ rw long (length-take-le 255 sid)
  | inr fits ↦ rw fits (ground arith)
]

pub encode_pty-image :
    (sid bytes : Bytes) → encode_pty sid bytes ≡ length (cut_sid sid) % 256 ∷ (cut_sid sid ++ bytes)
unfolding encode_pty
encode_pty-image sid bytes =
    let n = length (cut_sid sid) in
    fill-flat ((n % 256 ∷ []) ∷ cut_sid sid ∷ bytes ∷ []) (make (1 + n + length bytes)) (
      omega (
        arith,
        length-replicate {A = ℕ} (1 + n + length bytes) 0,
        ap length (append-nil bytes),
        length-append (cut_sid sid) (bytes ++ []),
      ))
    ∙ simp append-nil

-- Terminal data is read back whole, under the session id cut to 255 bytes.
pub decode_pty-encode_pty :
    (sid bytes : Bytes) → decode_pty (encode_pty sid bytes) ≡ ok (cut_sid sid, bytes)
unfolding decode_pty
decode_pty-encode_pty sid bytes = rw encode_pty-image (
    ground (
      arith,
      length-cut_sid sid,
      length-append (cut_sid sid) bytes,
      take-length_append (cut_sid sid) bytes,
      drop-length_append (cut_sid sid) bytes,
    ))
