-- ===== src/Reudp/Packet/Decode.antt =====
-- The decoder of internal/reudp/packet.go on any input, well formed or not.
use runeverything.Base.{
  ℕ, zero, suc, ◌+◌, ◌-◌, ◌*◌, ◌^◌, ◌≤◌, ◌<◌, ◌≡◌, List, [], ◌∷◌, arith, length, get_or, take, drop,
  All, slice, length-take, length-drop,
}
use native.Mathlib.Nat.{pow-suc}
use runeverything.Base.Bytes.{Bytes, IsByte, read_be}
use runeverything.Reudp.Packet.{Packet, ok, max_payload, header_size, decode}
use runeverything.Reudp.Packet.RoundTrip.{IsPacket}

All-take {ℓ κ} : {A : Type ℓ} (P : A → Type κ) (n : ℕ) (xs : List A) → All P xs → All P (take n xs)
All-take P zero xs h = tt
All-take P (suc n) [] h = tt
All-take P (suc n) (x ∷ xs) h = (h.0, All-take P n xs h.1)

All-drop {ℓ κ} : {A : Type ℓ} (P : A → Type κ) (n : ℕ) (xs : List A) → All P xs → All P (drop n xs)
All-drop P zero xs h = h
All-drop P (suc n) [] h = tt
All-drop P (suc n) (x ∷ xs) h = All-drop P n xs h.1

All-get_or : (xs : Bytes) (i : ℕ) → All IsByte xs → IsByte (get_or xs i 0)
All-get_or [] i h = omega arith
All-get_or (x ∷ xs) zero h = h.0
All-get_or (x ∷ xs) (suc i) h = All-get_or xs i h.1

read_be-lt : (acc : ℕ) (bs : Bytes) → All IsByte bs → read_be acc bs < (acc + 1) * 256 ^ length bs
read_be-lt acc [] h = omega arith
read_be-lt acc (b ∷ bs) h =
    let ih = read_be-lt (acc * 256 + b) bs h.1 in
    let room : (acc * 256 + b + 1) * 256 ^ length bs ≤ (acc + 1) * 256 * 256 ^ length bs =
      grind arith in
    rw (pow-suc 256 (length bs)) (omega arith)

pow_le_word : (n : ℕ) → n ≤ 4 → 256 ^ n ≤ 2 ^ 32
pow_le_word zero h = omega arith
pow_le_word (suc zero) h = omega arith
pow_le_word (suc (suc zero)) h = omega arith
pow_le_word (suc (suc (suc zero))) h = omega arith
pow_le_word (suc (suc (suc (suc n)))) h = let e : n ≡ 0 = omega arith in rw e (omega arith)

word_lt : (lo hi : ℕ) (b : Bytes) → All IsByte b → hi - lo ≤ 4 → read_be 0 (slice lo hi b) < 2 ^ 32
word_lt lo hi b h fits =
    let word = slice lo hi b in
    let ih = read_be-lt 0 word (All-take IsByte (hi - lo) _ (All-drop IsByte lo b h)) in
    let short : length word ≤ 4 = omega (arith, length-take (hi - lo) (drop lo b)) in
    omega (arith, pow_le_word (length word) short)

-- What the decoder accepts of bytes is in range, and it takes no more than the input.
decode-IsPacket :
    (b : Bytes) {p : Packet}
    → All IsByte b
    → decode b ≡ ok p
    → IsPacket p × (length p.payload ≤ max_payload) × (header_size + length p.payload ≤ length b)
unfolding decode
decode-IsPacket b h e = ground (
  arith,
  All-get_or b 3 h,
  All-get_or b 4 h,
  word_lt 6 10 b h,
  word_lt 10 14 b h,
  word_lt 14 18 b h,
  length-take (read_be 0 (slice 18 20 b)) (drop 20 b),
  length-drop 20 b,
)
