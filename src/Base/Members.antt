-- ===== src/Base/Members.antt =====
-- Lists of texts as sets: a `map[string]bool`, or a list that is kept free of repetitions.
use mathlib.Core.Path.{◌≡◌, refl}
use mathlib.Core.Bool.{Bool, false, ◌||◌}
use mathlib.Core.List.{List, [], ◌∷◌, ◌++◌}
use native.Mathlib.Omega.{arith}
use runeverything.Base.Bytes.{Bytes, bytes_eq, bytes_eq_iff}

unfoldable pub member : Bytes → List Bytes → Bool
member u [] = false
member u (v ∷ vs) = bytes_eq v u || member u vs

pub member-append :
    (u : Bytes) (vs ws : List Bytes) → member u (vs ++ ws) ≡ (member u vs || member u ws)
unfolding member
member-append u [] ws = refl
member-append u (v ∷ vs) ws = ground (arith, member-append u vs ws)

-- Every text is different from those after it.
abbrev pub Distinct : List Bytes → Type 0
Distinct [] = Unit
Distinct (u ∷ us) = (member u us ≡ false) × Distinct us

pub Distinct-last :
    (u : Bytes) (us : List Bytes) → member u us ≡ false → Distinct us → Distinct (us ++ (u ∷ []))
unfolding member
Distinct-last u [] out d = (refl, tt)
Distinct-last u (v ∷ us) out (w, d) =
    let rest = Distinct-last u us (ground arith) d in
    (ground (arith, member-append v us (u ∷ []), bytes_eq_iff u v, bytes_eq_iff v u), rest)

-- The item stands in the list.
pub data IsIn {ℓ} {A : Type ℓ} (a : A) : List A → Type ℓ where
  at_head : {x : A} {xs : List A} → a ≡ x → IsIn a (x ∷ xs)
  at_tail : {x : A} {xs : List A} → IsIn a xs → IsIn a (x ∷ xs)
