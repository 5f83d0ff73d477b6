-- ===== src/Base/Bytes.antt =====
-- Byte strings as lists of numbers, big-endian words, and buffers that are written in place.
use Prim.Native.Nat.{ℕ, zero, suc, ◌+◌, ◌*◌, ◌/◌, ◌%◌, ◌^◌, ◌≤◌, ◌<◌}
use Prim.Native.Char.{code}
use Prim.Native.String.{String}
use mathlib.Core.Path.{◌≡◌, refl, sym, ap, ◌∙◌}
use mathlib.Core.Logic.{◌↔◌}
use mathlib.Core.Bool.{Bool, true, false, ◌&&◌}
use mathlib.Core.List.{List, [], ◌∷◌, ◌++◌, append_assoc, append-nil}
use native.Mathlib.Omega.{arith}
use runeverything.Base.Tests.{◌==◌}
use runeverything.Base.Lists.{length, replicate, drop, length-append, length-drop}

abbrev pub Bytes : Type 0
Bytes = List ℕ

abbrev pub IsByte : ℕ → Type 0
IsByte b = b < 256

-- The bytes of an ASCII text.
abbrev pub codes : String → Bytes
codes String.[] = []
codes (String.◌∷◌ c s) = code c ∷ codes s

-- Go's `==` on strings.
unfoldable pub bytes_eq : Bytes → Bytes → Bool
bytes_eq [] [] = true
bytes_eq [] (y ∷ ys) = false
bytes_eq (x ∷ xs) [] = false
bytes_eq (x ∷ xs) (y ∷ ys) = x == y && bytes_eq xs ys

pub bytes_eq_iff : (xs ys : Bytes) → (bytes_eq xs ys ≡ true) ↔ (xs ≡ ys)
unfolding bytes_eq
bytes_eq_iff [] [] = (λ _. refl, λ _. refl)
bytes_eq_iff [] (y ∷ ys) = (λ e. cc, λ e. cc)
bytes_eq_iff (x ∷ xs) [] = (λ e. cc, λ e. cc)
bytes_eq_iff (x ∷ xs) (y ∷ ys) = ground (arith, bytes_eq_iff xs ys)

-- `binary.BigEndian.PutUint16`, `PutUint32` and `PutUint64`, and the readers.
abbrev pub be16 : ℕ → Bytes
be16 v = v / 256 % 256 ∷ v % 256 ∷ []

abbrev pub be32 : ℕ → Bytes
be32 v = v / 2 ^ 24 % 256 ∷ v / 2 ^ 16 % 256 ∷ v / 2 ^ 8 % 256 ∷ v % 256 ∷ []

abbrev pub be64 : ℕ → Bytes
be64 v = be32 (v / 2 ^ 32) ++ be32 (v % 2 ^ 32)

abbrev pub read_be : ℕ → Bytes → ℕ
read_be acc [] = acc
read_be acc (b ∷ bs) = read_be (acc * 256 + b) bs

pub read_be-be16 : (v : ℕ) → v < 2 ^ 16 → read_be 0 (be16 v) ≡ v
read_be-be16 v h = omega arith

pub read_be-be32 : (v : ℕ) → v < 2 ^ 32 → read_be 0 (be32 v) ≡ v
read_be-be32 v h = omega arith

pub read_be-be64 : (v : ℕ) → v < 2 ^ 64 → read_be 0 (be64 v) ≡ v
read_be-be64 v h = omega arith

-- `make([]byte, n)`, and `copy(buf[off:], bs)`, which stops at the end of the buffer.
abbrev pub make : ℕ → Bytes
make n = replicate n 0

overlay : Bytes → Bytes → Bytes
overlay [] buf = buf
overlay (x ∷ xs) [] = []
overlay (x ∷ xs) (b ∷ buf) = x ∷ overlay xs buf

unfoldable pub write : ℕ → Bytes → Bytes → Bytes
unfolding overlay
write zero bs buf = overlay bs buf
write (suc off) bs [] = []
write (suc off) bs (b ∷ buf) = b ∷ write off bs buf

overlay_lem :
    (bs rest : Bytes) → length bs ≤ length rest → overlay bs rest ≡ bs ++ drop (length bs) rest
unfolding overlay
overlay_lem [] rest h = refl
overlay_lem (x ∷ xs) [] h = absurd (omega arith)
overlay_lem (x ∷ xs) (b ∷ rest) h = ap (◌∷◌ x) (overlay_lem xs rest (omega arith))

write-append :
    (pre bs rest : Bytes)
    → length bs ≤ length rest
    → write (length pre) bs (pre ++ rest) ≡ pre ++ (bs ++ drop (length bs) rest)
unfolding write
write-append [] bs rest h = overlay_lem bs rest h
write-append (x ∷ pre) bs rest h = ap (◌∷◌ x) (write-append pre bs rest h)

-- The buffer has `n` bytes, and begins with `pre`.
abbrev pub Holds : ℕ → Bytes → Bytes → Type 0
Holds n pre buf = (rest : Bytes) × (buf ≡ pre ++ rest) × (length pre + length rest ≡ n)

pub Holds-start : (n : ℕ) (buf : Bytes) → length buf ≡ n → Holds n [] buf
Holds-start n buf e = (buf, refl, omega arith)

-- A buffer is filled from the left: a write just behind what it holds.
pub Holds-write :
    (n off : ℕ) (pre bs : Bytes) {buf : Bytes}
    → Holds n pre buf
    → off ≡ length pre
    → length pre + length bs ≤ n
    → Holds n (pre ++ bs) (write off bs buf)
Holds-write n off pre bs (rest, e, sized) at fits = (
  drop (length bs) rest,
  rw (e, at) (write-append pre bs rest (omega arith) ∙ rw append_assoc),
  omega (arith, length-append pre bs, length-drop (length bs) rest),
)

pub Holds-full : (n : ℕ) (pre : Bytes) {buf : Bytes} → Holds n pre buf → length pre ≡ n → buf ≡ pre
Holds-full n pre ([], e, sized) full = rw e (append-nil pre)
Holds-full n pre (x ∷ rest, e, sized) full = absurd (omega arith)

-- Pieces written one behind the other, from the offset on.
abbrev pub fill : ℕ → List Bytes → Bytes → Bytes
fill off [] buf = buf
fill off (bs ∷ rest) buf = fill (off + length bs) rest (write off bs buf)

abbrev pub flat : List Bytes → Bytes
flat [] = []
flat (bs ∷ rest) = bs ++ flat rest

fill_from :
    (n off : ℕ) (pre : Bytes) (pieces : List Bytes) (buf : Bytes)
    → Holds n pre buf
    → off ≡ length pre
    → length pre + length (flat pieces) ≡ n
    → fill off pieces buf ≡ pre ++ flat pieces
fill_from n off pre [] buf held at full = Holds-full n pre held (omega arith) ∙ sym (append-nil pre)
fill_from n off pre (bs ∷ rest) buf held at full =
    let sized : length bs + length (flat rest) ≡ length (bs ++ flat rest) =
      omega (arith, length-append bs (flat rest)) in
    fill_from n (off + length bs) (pre ++ bs) rest (write off bs buf)
      (Holds-write n off pre bs held at (omega arith)) (omega (arith, length-append pre bs))
      (omega (arith, length-append pre bs))
    ∙ append_assoc pre bs (flat rest)

-- If the pieces have the buffer's length, nothing of its old content is left.
pub fill-flat :
    (pieces : List Bytes) (buf : Bytes)
    → length (flat pieces) ≡ length buf
    → fill 0 pieces buf ≡ flat pieces
fill-flat pieces buf e =
    fill_from (length buf) 0 [] pieces buf (Holds-start (length buf) buf refl) refl (omega arith)
