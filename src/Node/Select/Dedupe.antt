-- ===== src/Node/Select/Dedupe.antt =====
-- What `dedupeRelays` of internal/p2p/resolve.go leaves.
use runeverything.Base.Members.{Distinct, Distinct-last, member, member-append}
use runeverything.Node.Select.{Deduped, add_relay, add_relays, dedupe_relays}
use runeverything.Node.Url.{Urls}
use runeverything.Base.Bytes.{Bytes, bytes_eq, bytes_eq_iff}
use runeverything.Base.{
  ◌<◌, ◌≡◌, refl, sym, append-nil, ap, ◌∙◌, inl, inr, true, ◌||◌, List, [], ◌∷◌, ◌++◌, arith, ◌==◌,
  if◌then◌else◌, Bool-cases, length, All, All-append, append_assoc,
}

module _ (urls : Urls) (primary : Bytes) where
  abbrev pub own : List Bytes
  own = if length primary == 0 then [] else primary ∷ []

  -- What has been given out comes after the own relay, each once and none empty.
  record IsClean (s : Deduped) : Type 0 where
    pub seen_eq : s.seen ≡ own ++ s.out
    pub distinct : Distinct s.seen
    pub non_empty : All (λ u. 0 < length u) s.out

  add_relay-IsClean : (raw : Bytes) (s : Deduped) → IsClean s → IsClean (add_relay urls raw s)
  unfolding add_relay
  add_relay-IsClean raw s v =
      let u = urls.trim_space raw in
      elim (Bool-cases (length u == 0 || member u s.seen)) [
        | inl stays ↦ rw stays v
        | inr comes ↦ rw comes (record {
          seen_eq = ap (λ w. w ++ (u ∷ [])) v.seen_eq ∙ append_assoc own s.out (u ∷ []);
          distinct = Distinct-last u s.seen (ground arith) v.distinct;
          non_empty = All-append (λ u. 0 < length u) s.out (u ∷ []) v.non_empty (ground arith, tt);
        })
      ]

  add_relays-IsClean : (us : List Bytes) (s : Deduped) → IsClean s → IsClean (add_relays urls us s)
  unfolding add_relays
  add_relays-IsClean [] s v = v
  add_relays-IsClean (u ∷ us) s v =
      add_relays-IsClean us (add_relay urls u s) (add_relay-IsClean u s v)

  own-Distinct : Distinct own
  unfolding member
  own-Distinct = elim (Bool-cases (length primary == 0)) [
    | inl none_given ↦ rw none_given tt
    | inr given ↦ rw given (refl, tt)
  ]

  start-IsClean : IsClean (record { seen = own; out = [] })
  start-IsClean = record { seen_eq = sym (append-nil own); distinct = own-Distinct; non_empty = tt }

module _ (urls : Urls) where
  add_relay-keeps :
      (raw w : Bytes) (s : Deduped)
      → member w s.seen ≡ true
      → member w (add_relay urls raw s).seen ≡ true
  unfolding add_relay
  add_relay-keeps raw w s m = ground (arith, member-append w s.seen (urls.trim_space raw ∷ []))

  add_relays-keeps :
      (us : List Bytes) (w : Bytes) (s : Deduped)
      → member w s.seen ≡ true
      → member w (add_relays urls us s).seen ≡ true
  unfolding add_relays
  add_relays-keeps [] w s m = m
  add_relays-keeps (u ∷ us) w s m =
      add_relays-keeps us w (add_relay urls u s) (add_relay-keeps u w s m)

  add_relay-has :
      (raw : Bytes) (s : Deduped)
      → 0 < length (urls.trim_space raw)
      → member (urls.trim_space raw) (add_relay urls raw s).seen ≡ true
  unfolding add_relay member
  add_relay-has raw s h =
      let w = urls.trim_space raw in
      ground (arith, member-append w s.seen (w ∷ []), bytes_eq_iff w w)

  add_relays-has :
      (us : List Bytes) (raw : Bytes) (s : Deduped)
      → member raw us ≡ true
      → 0 < length (urls.trim_space raw)
      → member (urls.trim_space raw) (add_relays urls us s).seen ≡ true
  unfolding add_relays member
  add_relays-has [] raw s m h = absurd (ground arith)
  add_relays-has (u ∷ us) raw s m h = elim (Bool-cases (bytes_eq u raw)) [
    | inl here ↦
        let same : u ≡ raw = ground (arith, bytes_eq_iff u raw) in
        rw same
          (add_relays-keeps us (urls.trim_space raw) (add_relay urls raw s) (add_relay-has raw s h))
    | inr later ↦ add_relays-has us raw (add_relay urls u s) (ground arith) h
  ]

  -- The alternates are all different, none is empty and none is the primary relay; and every relay
  -- that was given, trimmed, is among them or is the primary one, unless it is empty.
  dedupe_relays_lem :
      (extra : List Bytes) (manual primary : Bytes)
      → Distinct (own urls primary ++ dedupe_relays urls extra manual primary)
        × All (λ u. 0 < length u) (dedupe_relays urls extra manual primary)
        × ((raw : Bytes)
            → member raw (manual ∷ extra) ≡ true
            → 0 < length (urls.trim_space raw)
            → member
                (urls.trim_space raw)
                (own urls primary ++ dedupe_relays urls extra manual primary)
              ≡ true)
  dedupe_relays_lem extra manual primary =
      let start : Deduped = record { seen = own urls primary; out = [] } in
      let s = add_relays urls (manual ∷ extra) start in
      let same : dedupe_relays urls extra manual primary ≡ s.out =
        unfold dedupe_relays add_relays in refl in
      let v = add_relays-IsClean urls primary (manual ∷ extra) start (start-IsClean urls primary) in
      rw same (
        rw v.seen_eq at v.distinct,
        v.non_empty,
        λ raw m h. rw v.seen_eq at (add_relays-has (manual ∷ extra) raw start m h),
      )
