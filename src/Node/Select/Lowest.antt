-- ===== src/Node/Select/Lowest.antt =====
-- What `SelectLowestPing` of internal/p2p/crawl.go chooses.
use runeverything.Node.Select.{
  ProbeResult, Healthy, selected, healthy, put_sorted, sort_stable, near_best, has_near,
  keep_sticky, pick, select_lowest_ping,
}
use runeverything.Node.Url.{Urls, Checked, valid, invalid, normalize_relay_url}
use runeverything.Base.Bytes.{Bytes, bytes_eq, bytes_eq_iff}
use mathlib.Core.Path.{subst}
use runeverything.Base.{
  ℕ, ◌+◌, ◌*◌, ◌≤◌, ◌<◌, ◌≡◌, refl, sym, ◌⊎◌, inl, inr, true, false, ◌&&◌, some, List, [], ◌∷◌,
  arith, leb, ◌==◌, Bool-cases, Option-cases, length, All, All-mono,
}

-- The candidate is among those probed, with this round trip.
abbrev pub Measured : Bytes → ℕ → List ProbeResult → Type 0
Measured u t [] = ⊥
Measured u t (r ∷ rs) = ((r.url ≡ u) × (r.rtt ≡ some t)) ⊎ Measured u t rs

-- No candidate that answered is faster.
pub IsLeast : ℕ → List ProbeResult → Type 0
IsLeast t rs = All (λ r. (s : ℕ) → r.rtt ≡ some s → t ≤ s) rs

-- What is chosen: a candidate that answered within twice the least round trip and 50 ms; without a
-- sticky relay the fastest.
pub record Chosen (sticky u : Bytes) (rs : List ProbeResult) : Type 0 where
  pub rtt : ℕ
  pub least : ℕ
  pub measured : Measured u rtt rs
  pub is_least : IsLeast least rs
  pub near : rtt ≤ least * 2 + 50000000
  pub fastest : length sticky ≡ 0 → rtt ≡ least

-- The first is the fastest, and so on.
IsSorted : List Healthy → Type 0
IsSorted [] = Unit
IsSorted (x ∷ xs) = All (λ y. x.rtt ≤ y.rtt) xs × IsSorted xs

module _ (P : Healthy → Type 0) where
  put_sorted-All : (h : Healthy) (xs : List Healthy) → P h → All P xs → All P (put_sorted h xs)
  unfolding put_sorted
  put_sorted-All h [] p q = (p, tt)
  put_sorted-All h (x ∷ xs) p (q, qs) = elim (Bool-cases (leb h.rtt x.rtt)) [
    | inl first ↦ rw first (p, (q, qs))
    | inr later ↦ rw later (q, put_sorted-All h xs p qs)
  ]

  sort_stable-All : (hs : List Healthy) → All P hs → All P (sort_stable hs)
  unfolding sort_stable
  sort_stable-All [] p = p
  sort_stable-All (h ∷ hs) (p, ps) = put_sorted-All h (sort_stable hs) p (sort_stable-All hs ps)

  All-put_sorted : (h : Healthy) (xs : List Healthy) → All P (put_sorted h xs) → P h × All P xs
  unfolding put_sorted
  All-put_sorted h [] = λ v. v
  All-put_sorted h (x ∷ xs) = elim (Bool-cases (leb h.rtt x.rtt)) [
    | inl first ↦ rw first (λ v. v)
    | inr later ↦ rw later (λ v. let (p, ps) = All-put_sorted h xs v.1 in (p, (v.0, ps)))
  ]

  All-sort_stable : (hs : List Healthy) → All P (sort_stable hs) → All P hs
  unfolding sort_stable
  All-sort_stable [] v = v
  All-sort_stable (h ∷ hs) v =
      let (p, ps) = All-put_sorted h (sort_stable hs) v in (p, All-sort_stable hs ps)

put_sorted-IsSorted : (h : Healthy) (xs : List Healthy) → IsSorted xs → IsSorted (put_sorted h xs)
unfolding put_sorted IsSorted
put_sorted-IsSorted h [] v = (tt, tt)
put_sorted-IsSorted h (x ∷ xs) (v, vs) = elim (Bool-cases (leb h.rtt x.rtt)) [
  | inl first ↦
      let le : h.rtt ≤ x.rtt = ground arith in
      rw first ((le, All-mono xs (λ y k. omega (arith, k)) v), (v, vs))
  | inr later ↦
      rw later
        (put_sorted-All (λ y. x.rtt ≤ y.rtt) h xs (ground arith) v, put_sorted-IsSorted h xs vs)
]

sort_stable-IsSorted : (hs : List Healthy) → IsSorted (sort_stable hs)
unfolding sort_stable IsSorted
sort_stable-IsSorted [] = tt
sort_stable-IsSorted (h ∷ hs) = put_sorted-IsSorted h (sort_stable hs) (sort_stable-IsSorted hs)

healthy-Measured : (rs : List ProbeResult) → All (λ h. Measured h.url h.rtt rs) (healthy rs)
unfolding healthy
healthy-Measured [] = tt
healthy-Measured (r ∷ rs) = elim (Option-cases r.rtt) [
  | inl mute ↦ rw mute (All-mono (healthy rs) (λ h m. inr m) (healthy-Measured rs))
  | inr (t, told) ↦
      rw told (inl (refl, refl), All-mono (healthy rs) (λ h m. inr m) (healthy-Measured rs))
]

-- A bound of all that answered is a bound of the measurements.
healthy-IsLeast : (t : ℕ) (rs : List ProbeResult) → All (λ h. t ≤ h.rtt) (healthy rs) → IsLeast t rs
unfolding healthy IsLeast
healthy-IsLeast t [] v = tt
healthy-IsLeast t (r ∷ rs) v = elim (Option-cases r.rtt) [
  | inl mute ↦ (λ s e. absurd (cc), healthy-IsLeast t rs (rw mute at v))
  | inr (s', told) ↦
      let (le, rest) = rw told at v in (λ s e. ground (arith, le), healthy-IsLeast t rs rest)
]

has_near-Measured :
    (u : Bytes) (limit : ℕ) (rs : List ProbeResult) (hs : List Healthy)
    → All (λ h. Measured h.url h.rtt rs) hs
    → has_near u limit hs ≡ true
    → (t : ℕ) × (t ≤ limit) × Measured u t rs
unfolding has_near
has_near-Measured u limit rs [] v e = absurd (ground arith)
has_near-Measured u limit rs (h ∷ hs) (m, v) e =
    elim (Bool-cases (bytes_eq h.url u && leb h.rtt limit)) [
      | inl here ↦
          let same : h.url ≡ u = ground (arith, bytes_eq_iff h.url u) in
          (h.rtt, ground arith, rw same at m)
      | inr later ↦ has_near-Measured u limit rs hs v (ground arith)
    ]

keep_sticky-Measured :
    (c : Checked) (rs : List ProbeResult) (best : Healthy) (hs : List Healthy)
    → All (λ h. Measured h.url h.rtt rs) (best ∷ hs)
    → (t : ℕ) × (t ≤ near_best best) × Measured (keep_sticky c best (best ∷ hs)) t rs
unfolding keep_sticky
keep_sticky-Measured (invalid e) rs best hs v = (best.rtt, omega arith, v.0)
keep_sticky-Measured (valid u) rs best hs v =
    elim (Bool-cases (has_near u (near_best best) (best ∷ hs))) [
      | inl close ↦ rw close (has_near-Measured u (near_best best) rs (best ∷ hs) v close)
      | inr far ↦ rw far (best.rtt, omega arith, v.0)
    ]

pick-Chosen :
    (urls : Urls) (sticky : Bytes) (rs : List ProbeResult) (best : Healthy) (hs : List Healthy)
    → All (λ h. Measured h.url h.rtt rs) (best ∷ hs)
    → IsLeast best.rtt rs
    → (u : Bytes) × (pick urls sticky (best ∷ hs) ≡ selected u) × Chosen sticky u rs
unfolding pick
pick-Chosen urls sticky rs best hs v least = elim (Bool-cases (length sticky == 0)) [
  | inl free ↦ (
    best.url,
    rw free refl,
    record {
      rtt = best.rtt;
      least = best.rtt;
      measured = v.0;
      is_least = least;
      near = omega arith;
      fastest = λ e. refl;
    },
  )
  | inr given ↦
      let c = normalize_relay_url urls sticky in
      let (t, le, m) = keep_sticky-Measured c rs best hs v in
      (
        keep_sticky c best (best ∷ hs),
        rw given refl,
        record {
          rtt = t;
          least = best.rtt;
          measured = m;
          is_least = least;
          near = le;
          fastest = λ e. absurd (ground arith);
        },
      )
]

Measured-healthy :
    (u : Bytes) (t : ℕ) (rs : List ProbeResult) → Measured u t rs → 0 < length (healthy rs)
unfolding healthy
Measured-healthy u t [] m = elim m [ ]
Measured-healthy u t (r ∷ rs) (inl (same, told)) = rw told (omega arith)
Measured-healthy u t (r ∷ rs) (inr m) =
    let rest = Measured-healthy u t rs m in
    elim (Option-cases r.rtt) [ inl mute ↦ rw mute rest | inr (s, told) ↦ rw told (omega arith) ]

length-put_sorted : (h : Healthy) (xs : List Healthy) → 0 < length (put_sorted h xs)
unfolding put_sorted
length-put_sorted h [] = omega arith
length-put_sorted h (x ∷ xs) = ground (arith, length-put_sorted h xs)

length-sort_stable : (hs : List Healthy) → 0 < length hs → 0 < length (sort_stable hs)
unfolding sort_stable
length-sort_stable [] h = absurd (omega arith)
length-sort_stable (x ∷ hs) h = length-put_sorted x (sort_stable hs)

Measured-length : (u : Bytes) (t : ℕ) (rs : List ProbeResult) → Measured u t rs → 0 < length rs
Measured-length u t [] m = elim m [ ]
Measured-length u t (r ∷ rs) m = omega arith

pick_sorted :
    (urls : Urls) (sticky : Bytes) (rs : List ProbeResult) (hs : List Healthy)
    → sort_stable (healthy rs) ≡ hs
    → 0 < length hs
    → (u : Bytes) × (pick urls sticky hs ≡ selected u) × Chosen sticky u rs
unfolding IsSorted
pick_sorted urls sticky rs [] e h = absurd (omega arith)
pick_sorted urls sticky rs (best ∷ hs) e h =
    let all =
      subst (All (λ h. Measured h.url h.rtt rs)) e
        (sort_stable-All (λ h. Measured h.url h.rtt rs) (healthy rs) (healthy-Measured rs)) in
    let sorted : IsSorted (best ∷ hs) = subst IsSorted e (sort_stable-IsSorted (healthy rs)) in
    let first : All (λ h. best.rtt ≤ h.rtt) (best ∷ hs) = (omega arith, sorted.0) in
    let bound =
      All-sort_stable (λ h. best.rtt ≤ h.rtt) (healthy rs)
        (subst (All (λ h. best.rtt ≤ h.rtt)) (sym e) first) in
    pick-Chosen urls sticky rs best hs all (healthy-IsLeast best.rtt rs bound)

-- If a candidate has answered, one that answered is selected: its round trip is at most twice the
-- least one and 50 ms, and it is the least one if there is no sticky relay.
pub select_lowest_ping-Chosen :
    (urls : Urls) (sticky v : Bytes) (t : ℕ) (rs : List ProbeResult)
    → Measured v t rs
    → (u : Bytes) × (select_lowest_ping urls sticky rs ≡ selected u)
      × Chosen (urls.trim_space sticky) u rs
unfolding select_lowest_ping
select_lowest_ping-Chosen urls sticky v t rs m =
    let some_one = length-sort_stable (healthy rs) (Measured-healthy v t rs m) in
    let many : (length rs == 0) ≡ false = ground (arith, Measured-length v t rs m) in
    rw many (pick_sorted urls (urls.trim_space sticky) rs (sort_stable (healthy rs)) refl some_one)
