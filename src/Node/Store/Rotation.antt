-- ===== src/Node/Store/Rotation.antt =====
-- `RandomURLs` of internal/p2p/peerstore.go: the list turned by a number of places, and cut.
use runeverything.Node.Store.{Peer, Store, list, random_urls, rotate, no_peer}
use native.Mathlib.Nat.{mod-lt, mod-eq_of_lt, add-mod_right, zero-add}
use runeverything.Base.Bytes.{Bytes}
use runeverything.Base.{
  ℕ, zero, suc, ◌+◌, ◌-◌, ◌%◌, ◌≤◌, ◌<◌, ◌≡◌, refl, sym, ap, ◌∙◌, inl, inr, false, ◌||◌, List, [],
  ◌∷◌, ◌++◌, arith, ltb, ◌==◌, if◌then◌else◌, Bool-cases, length, length-drop, length-take,
  length-append, take, drop, get_or, min,
}

module _ {ℓ} {A : Type ℓ} (d : A) where
  get_or-append :
      (xs ys : List A) (i : ℕ)
      → get_or (xs ++ ys) i d
        ≡ (if ltb i (length xs) then get_or xs i d else get_or ys (i - length xs) d)
  get_or-append [] ys i = ground arith
  get_or-append (x ∷ xs) ys zero = ground arith
  get_or-append (x ∷ xs) ys (suc i) = ground (arith, get_or-append xs ys i)

  get_or-drop : (m i : ℕ) (xs : List A) → get_or (drop m xs) i d ≡ get_or xs (m + i) d
  get_or-drop zero i xs = ap (λ k. get_or xs k d) (sym (zero-add i))
  get_or-drop (suc m) i [] = refl
  get_or-drop (suc m) i (x ∷ xs) =
      let at : suc (m + i) ≡ suc m + i = omega arith in
      get_or-drop m i xs ∙ ap (λ k. get_or (x ∷ xs) k d) at

  get_or-take : (m i : ℕ) (xs : List A) → i < m → get_or (take m xs) i d ≡ get_or xs i d
  get_or-take zero i xs h = absurd (omega arith)
  get_or-take (suc m) i [] h = refl
  get_or-take (suc m) zero (x ∷ xs) h = refl
  get_or-take (suc m) (suc i) (x ∷ xs) h = get_or-take m i xs (omega arith)

  drop-next : (i : ℕ) (xs : List A) → i < length xs → drop i xs ≡ get_or xs i d ∷ drop (i + 1) xs
  drop-next i [] h = absurd (omega arith)
  drop-next zero (x ∷ xs) h = refl
  drop-next (suc i) (x ∷ xs) h =
      let at : suc (i + 1) ≡ suc i + 1 = omega arith in
      drop-next i xs (omega arith) ∙ ap (λ k. get_or xs i d ∷ drop k (x ∷ xs)) at

  get_or-turned :
      (off i : ℕ) (xs : List A)
      → off < length xs
      → i < length xs
      → get_or (drop off xs ++ take off xs) i d ≡ get_or xs ((off + i) % length xs) d
  get_or-turned off i xs h k =
      let len = length-drop off xs in
      elim (Bool-cases (ltb i (length xs - off))) [
        | inl before ↦
            let at : off + i ≡ (off + i) % length xs = sym (mod-eq_of_lt (ground arith)) in
            get_or-append (drop off xs) (take off xs) i
            ∙ rw (len, before) (get_or-drop off i xs ∙ ap (λ j. get_or xs j d) at)
        | inr after ↦
            let j = i - (length xs - off) in
            let early : j < off = ground arith in
            let back : off + i ≡ j + length xs = ground arith in
            let at : j ≡ (off + i) % length xs = sym (
              ap (λ t. t % length xs) back
              ∙ add-mod_right j (length xs)
              ∙ mod-eq_of_lt (omega (arith, early))) in
            get_or-append (drop off xs) (take off xs) i
            ∙ rw (len, after) (get_or-take off j xs early ∙ ap (λ j. get_or xs j d) at)
      ]

length-turned :
    (off : ℕ) (ps : List Peer) → off < length ps → length (drop off ps ++ take off ps) ≡ length ps
length-turned off ps h = ground (
  arith,
  length-append {A = Peer} (drop off ps) (take off ps),
  length-drop {A = Peer} off ps,
  length-take {A = Peer} off ps,
)

abbrev pub addresses : List Peer → List Bytes
addresses [] = []
addresses (p ∷ ps) = p.url ∷ addresses ps

rotate-turned :
    (ps : List Peer) (off i k : ℕ)
    → off < length ps
    → i + k ≤ length ps
    → rotate ps off i k ≡ addresses (take k (drop i (drop off ps ++ take off ps)))
unfolding rotate
rotate-turned ps off i zero h le = refl
rotate-turned ps off i (suc k) h le =
    let turned = drop off ps ++ take off ps in
    let whole : length turned ≡ length ps = length-turned off ps h in
    let next : i < length turned = omega (arith, whole) in
    let same = get_or-turned no_peer off i ps h (omega arith) in
    rw (drop-next no_peer i turned next, same)
      (ap (◌∷◌ (get_or ps ((off + i) % length ps) no_peer).url)
        (rotate-turned ps off (i + 1) k h (omega arith)))

-- Where the list is not empty, the answer is the addresses of the unexpired relays, from one of them
-- on and round to those before it, each once, cut at the limit if there is one.
random_urls_lem :
    (now clock limit : ℕ) (s : Store)
    → 0 < length (list now s).1
    → random_urls now clock limit s ≡ (
      (list now s).0,
      (let ps = (list now s).1 in
          let off = clock % length ps in
          addresses (
            take
              (if limit == 0 then length ps else min limit (length ps))
              (drop off ps ++ take off ps))),
    )
unfolding random_urls
random_urls_lem now clock limit s h =
    let ps = (list now s).1 in
    let off = clock % length ps in
    let some_there : (length ps == 0) ≡ false = ground arith in
    let n = if limit == 0 || ltb (length ps) limit then length ps else limit in
    let count : n ≡ (if limit == 0 then length ps else min limit (length ps)) = ground arith in
    let fits : 0 + n ≤ length ps = ground arith in
    rw some_there (
      ap (λ us. ((list now s).0, us))
        (rotate-turned ps off 0 n (mod-lt clock h) fits
          ∙ ap (λ k. addresses (take k (drop off ps ++ take off ps))) count))
