-- ===== src/Node/Load/Top.antt =====
-- What `DiscoverTop` of internal/p2p/select_load.go gives out.
use runeverything.Base.Members.{Distinct, Distinct-last, member, member-append}
use runeverything.Node.Load.{
  ScoredRelay, is_healthy, healthy_of, put_scored, sort_scored, fill_top, top_relays,
}
use runeverything.Base.Bytes.{Bytes, bytes_eq, bytes_eq_iff}
use runeverything.Base.Float64.{Float64}
use runeverything.Base.{
  ℕ, ◌≤◌, ◌<◌, ◌≡◌, refl, inl, inr, Bool, true, false, ◌&&◌, ◌||◌, List, [], ◌∷◌, ◌++◌, arith, leb,
  ◌==◌, Bool-cases, length, length-append,
}

module _ {F : Type 0} ⦃fl : Float64 F⦄ where
  -- A healthy candidate of that address.
  unfoldable pub has_healthy : Bytes → List (ScoredRelay F) → Bool
  has_healthy u [] = false
  has_healthy u (s ∷ ss) = (bytes_eq s.url u && is_healthy s) || has_healthy u ss

  -- An address of one of the list.
  unfoldable has_url : Bytes → List (ScoredRelay F) → Bool
  has_url u [] = false
  has_url u (s ∷ ss) = bytes_eq s.url u || has_url u ss

  has_url-healthy_of :
      (u : Bytes) (ss : List (ScoredRelay F)) → has_url u (healthy_of ss) ≡ has_healthy u ss
  unfolding has_url has_healthy healthy_of
  has_url-healthy_of u [] = refl
  has_url-healthy_of u (s ∷ ss) = ground (arith, has_url-healthy_of u ss)

  has_url-put_scored :
      (u : Bytes) (s : ScoredRelay F) (ss : List (ScoredRelay F))
      → has_url u (put_scored s ss) ≡ (bytes_eq s.url u || has_url u ss)
  unfolding has_url put_scored
  has_url-put_scored u s [] = refl
  has_url-put_scored u s (x ∷ xs) = ground (arith, has_url-put_scored u s xs)

  has_url-sort_scored :
      (u : Bytes) (ss : List (ScoredRelay F)) → has_url u (sort_scored ss) ≡ has_url u ss
  unfolding has_url sort_scored
  has_url-sort_scored u [] = refl
  has_url-sort_scored u (s ∷ ss) =
      ground (arith, has_url-put_scored u s (sort_scored ss), has_url-sort_scored u ss)

  fill_top-Distinct :
      (n : ℕ) (ss : List (ScoredRelay F)) (out : List Bytes)
      → Distinct out
      → length out ≤ n
      → Distinct (fill_top n ss out) × (length (fill_top n ss out) ≤ n)
  unfolding fill_top
  fill_top-Distinct n [] out d le = (d, le)
  fill_top-Distinct n (s ∷ ss) out d le = elim (Bool-cases (leb n (length out))) [
    | inl full ↦ rw full (d, le)
    | inr room ↦ elim (Bool-cases (member s.url out)) [
      | inl there ↦ rw (room, there) (fill_top-Distinct n ss out d le)
      | inr fresh ↦
          rw (room, fresh)
            (fill_top-Distinct n ss (out ++ (s.url ∷ [])) (Distinct-last s.url out fresh d)
              (ground (arith, length-append {A = Bytes} out (s.url ∷ []))))
    ]
  ]

  -- What is given out was there, or is of the list; and unless it is full, all of the list is there.
  member-fill_top :
      (n : ℕ) (ss : List (ScoredRelay F)) (out : List Bytes) (u : Bytes)
      → length (fill_top n ss out) < n
      → member u (fill_top n ss out) ≡ (member u out || has_url u ss)
  unfolding fill_top has_url member
  member-fill_top n [] out u = λ room. ground arith
  member-fill_top n (s ∷ ss) out u = elim (Bool-cases (leb n (length out))) [
    | inl full ↦ rw full (λ room. absurd (ground arith))
    | inr free ↦ elim (Bool-cases (member s.url out)) [
      | inl there ↦
          rw (free, there)
            (λ room.
              let old : bytes_eq s.url u ≡ true → member u out ≡ true = λ e.
                let same : s.url ≡ u = ground (arith, bytes_eq_iff s.url u) in rw same at there in
              ground (arith, old, member-fill_top n ss out u room))
      | inr fresh ↦
          rw (free, fresh)
            (λ room. ground (
              arith,
              member-append u out (s.url ∷ []),
              member-fill_top n ss (out ++ (s.url ∷ [])) u room,
            ))
    ]
  ]

  -- Where at least one relay is asked for and one was selected: the relays given out are all
  -- different and at most as many as asked for; and if they are fewer, they are the one selected and
  -- exactly the addresses of the healthy candidates.
  pub top_relays_lem :
      (n : ℕ) (best : Bytes) (all : List (ScoredRelay F))
      → 0 < length best
      → 0 < n
      → Distinct (top_relays n best all)
        × (length (top_relays n best all) ≤ n)
        × ((u : Bytes)
            → length (top_relays n best all) < n
            → member u (top_relays n best all) ≡ (bytes_eq best u || has_healthy u all))
  unfolding top_relays member
  top_relays_lem n best all h k =
      let given : (length best == 0) ≡ false = ground arith in
      let many : (n == 0) ≡ false = ground arith in
      let (d, le) =
        fill_top-Distinct n (sort_scored (healthy_of all)) (best ∷ []) (refl, tt) (omega arith) in
      rw (given, many)
        (
          d,
          le,
          λ u room. ground (
            arith,
            member-fill_top n (sort_scored (healthy_of all)) (best ∷ []) u room,
            has_url-sort_scored u (healthy_of all),
            has_url-healthy_of u all,
          ),
        )
