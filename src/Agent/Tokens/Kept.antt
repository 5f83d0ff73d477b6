-- ===== src/Agent/Tokens/Kept.antt =====
-- `notePairedToken` of cmd/agent/psktokens.go: which tokens of paired controllers are kept.
use runeverything.Agent.Tokens.Handshake.{is_paired, handshake_tokens_lem}
use runeverything.Agent.Tokens.{
  PairedToken, PskTokens, max_paired_tokens, load_paired_tokens, refresh, put_latest, sort_latest,
  note_refreshed, note_paired_token, handshake_tokens,
}
use runeverything.Base.Members.{member}
use runeverything.Base.Bytes.{Bytes, bytes_eq, bytes_eq_iff}
use runeverything.Base.{
  ℕ, zero, suc, ◌+◌, ◌≤◌, ◌<◌, ◌≡◌, refl, ap, inl, inr, Bool, true, false, ◌&&◌, ◌||◌, Option, none,
  some, List, [], ◌∷◌, ◌++◌, arith, leb, ◌==◌, if◌then◌else◌, Bool-cases, Option-cases,
  some-injective, length, take,
}

-- How many tokens were used at that time or later.
unfoldable pub at_least : ℕ → List PairedToken → ℕ
at_least now [] = 0
at_least now (p ∷ ps) = (if leb now p.last_ok then 1 else 0) + at_least now ps

module _ (t : Bytes) (now : ℕ) where
  is_it : PairedToken → Bool
  is_it p = bytes_eq p.token t && p.last_ok == now

  -- The token of that time is there.
  unfoldable fresh : List PairedToken → Bool
  unfolding is_it
  fresh [] = false
  fresh (p ∷ ps) = is_it p || fresh ps

  -- It is one of the first `n`, and those before it were not used earlier.
  unfoldable near : ℕ → List PairedToken → Bool
  unfolding is_it
  near zero ps = false
  near (suc n) [] = false
  near (suc n) (p ∷ ps) = is_it p || (leb now p.last_ok && near n ps)

  put_latest-low :
      (p : PairedToken) (n : ℕ) (ps : List PairedToken)
      → p.last_ok < now
      → near n ps ≡ true
      → near n (put_latest p ps) ≡ true
  unfolding near put_latest
  put_latest-low p zero ps low h = cc
  put_latest-low p (suc n) [] low h = cc
  put_latest-low p (suc n) (q ∷ qs) low h = ground (arith, put_latest-low p n qs low)

  put_latest-high :
      (p : PairedToken) (n : ℕ) (ps : List PairedToken)
      → now ≤ p.last_ok
      → near n ps ≡ true
      → near (suc n) (put_latest p ps) ≡ true
  unfolding near put_latest
  put_latest-high p zero ps high h = cc
  put_latest-high p (suc n) [] high h = cc
  put_latest-high p (suc n) (q ∷ qs) high h = ground (arith, put_latest-high p n qs high)

  put_latest_self :
      (p : PairedToken) (n : ℕ) (ps : List PairedToken)
      → is_it p ≡ true
      → at_least now ps ≤ n
      → near (suc n) (put_latest p ps) ≡ true
  unfolding near put_latest at_least
  put_latest_self p n [] it le = ground arith
  put_latest_self p zero (q ∷ qs) it le = ground arith
  put_latest_self p (suc n) (q ∷ qs) it le = ground (arith, put_latest_self p n qs it)

  at_least-put_latest :
      (p : PairedToken) (ps : List PairedToken)
      → at_least now (put_latest p ps) ≡ at_least now (p ∷ ps)
  unfolding put_latest at_least
  at_least-put_latest p [] = refl
  at_least-put_latest p (q ∷ qs) = ground (arith, at_least-put_latest p qs)

  at_least-sort_latest : (ps : List PairedToken) → at_least now (sort_latest ps) ≡ at_least now ps
  unfolding sort_latest at_least
  at_least-sort_latest [] = refl
  at_least-sort_latest (p ∷ ps) =
      ground (arith, at_least-put_latest p (sort_latest ps), at_least-sort_latest ps)

  near-sort_latest :
      (ps : List PairedToken) → fresh ps ≡ true → near (at_least now ps) (sort_latest ps) ≡ true
  unfolding sort_latest at_least fresh
  near-sort_latest [] h = cc
  near-sort_latest (p ∷ ps) h = elim (Bool-cases (is_it p)) [
    | inl it ↦
        let one : at_least now (p ∷ ps) ≡ suc (at_least now ps) = ground arith in
        rw one (
          put_latest_self p (at_least now ps) (sort_latest ps) it
            (omega (arith, at_least-sort_latest ps)))
    | inr other ↦
        let rest = near-sort_latest ps (ground arith) in
        elim (Bool-cases (leb now p.last_ok)) [
          | inl high ↦
              let one : at_least now (p ∷ ps) ≡ suc (at_least now ps) = ground arith in
              rw one (put_latest-high p (at_least now ps) (sort_latest ps) (ground arith) rest)
          | inr low ↦
              let none_more : at_least now (p ∷ ps) ≡ at_least now ps = ground arith in
              rw none_more (put_latest-low p (at_least now ps) (sort_latest ps) (ground arith) rest)
        ]
  ]

  near-take :
      (m n : ℕ) (ps : List PairedToken) → near m ps ≡ true → m ≤ n → is_paired t (take n ps) ≡ true
  unfolding near is_paired
  near-take zero n ps h le = cc
  near-take (suc m) zero ps h le = absurd (omega arith)
  near-take (suc m) (suc n) [] h le = cc
  near-take (suc m) (suc n) (p ∷ ps) h le = ground (arith, near-take m n ps)

  -- The loop leaves the token with the time, and at most one entry more of that time or later.
  record Refreshed (ps : List PairedToken) (r : List PairedToken × Bool) : Type 0 where
    pub there : r.1 ≡ true → fresh r.0 ≡ true
    pub absent : r.1 ≡ false → r.0 ≡ ps
    pub grows : at_least now r.0 ≤ suc (at_least now ps)

  refresh-Refreshed :
      (ps : List PairedToken) {r : List PairedToken × Bool}
      → refresh now t ps ≡ some r
      → Refreshed ps r
  unfolding refresh fresh at_least
  refresh-Refreshed [] {r} h =
      let e : ([], false) ≡ r = some-injective h in
      rw (← e) (record { there = λ x. cc; absent = λ x. refl; grows = omega arith })
  refresh-Refreshed (p ∷ ps) {r} h = elim (Bool-cases (bytes_eq p.token t)) [
    | inl at ↦
        let e : r ≡ (record p { last_ok = now } ∷ ps, true) = ground (arith, h, at) in
        rw e (record { there = λ x. ground (arith, at); absent = λ x. cc; grows = ground arith })
    | inr off ↦ elim (Option-cases (refresh now t ps)) [
      | inl stops ↦ absurd (ground (arith, h, off, stops))
      | inr (q, found) ↦
          let e : r ≡ (p ∷ q.0, q.1) = ground (arith, h, off, found) in
          let rest = refresh-Refreshed ps {r = q} found in
          rw e (record {
            there = λ x. ground (arith, rest.there x);
            absent = λ x. ap (◌∷◌ p) (rest.absent x);
            grows = ground (arith, rest.grows);
          })
    ]
  ]

  -- A token that is not found, or was used in the last minute.
  refresh-is_paired : (ps : List PairedToken) → refresh now t ps ≡ none → is_paired t ps ≡ true
  unfolding refresh is_paired
  refresh-is_paired [] h = cc
  refresh-is_paired (p ∷ ps) h = elim (Bool-cases (bytes_eq p.token t)) [
    | inl at ↦ rw at
    | inr off ↦ elim (Option-cases (refresh now t ps)) [
      | inl stops ↦ rw off (refresh-is_paired ps stops)
      | inr (q, found) ↦ absurd (ground (arith, h, off, found))
    ]
  ]

fresh-new :
    (t : Bytes) (now : ℕ) (ps : List PairedToken)
    → fresh t now (ps ++ (record { token = t; last_ok = now } ∷ [])) ≡ true
unfolding fresh
fresh-new t now [] = ground (arith, bytes_eq_iff t t)
fresh-new t now (p ∷ ps) = ground (arith, fresh-new t now ps)

at_least-new :
    (t : Bytes) (now : ℕ) (ps : List PairedToken)
    → at_least now (ps ++ (record { token = t; last_ok = now } ∷ [])) ≤ suc (at_least now ps)
unfolding at_least
at_least-new t now [] = ground arith
at_least-new t now (p ∷ ps) = ground (arith, at_least-new t now ps)

note_refreshed-is_paired :
    (t : Bytes) (now : ℕ) (ps : List PairedToken) (r : Option (List PairedToken × Bool))
    → refresh now t ps ≡ r
    → at_least now ps < max_paired_tokens
    → is_paired t (note_refreshed now t r ps) ≡ true
unfolding note_refreshed
note_refreshed-is_paired t now ps none e room = refresh-is_paired t now ps e
note_refreshed-is_paired t now ps (some (qs, true)) e room =
    let f = refresh-Refreshed t now ps {r = (qs, true)} e in
    near-take t now (at_least now qs) max_paired_tokens (sort_latest qs)
      (near-sort_latest t now qs (f.there refl)) (omega (arith, f.grows))
note_refreshed-is_paired t now ps (some (qs, false)) e room =
    let f = refresh-Refreshed t now ps {r = (qs, false)} e in
    let old : qs ≡ ps = f.absent refl in
    near-take t now (at_least now (qs ++ (record { token = t; last_ok = now } ∷ [])))
      max_paired_tokens (sort_latest (qs ++ (record { token = t; last_ok = now } ∷ [])))
      (near-sort_latest t now _ (fresh-new t now qs))
      (rw old (omega (arith, at_least-new t now ps)))

-- A token that a controller has answered a handshake with stays a candidate for handshakes,
-- whatever pairing token is shown then, unless 16 of the paired tokens that were known had been used
-- at the time of the handshake or later.
pub paired_token_kept :
    (now : ℕ) (stored stored' : List PairedToken) (t shown : Bytes) (s : PskTokens)
    → (length t == 0) ≡ false
    → at_least now (load_paired_tokens stored s) < max_paired_tokens
    → member t (handshake_tokens stored' shown (note_paired_token now stored t s)) ≡ true
unfolding note_paired_token load_paired_tokens
paired_token_kept now stored stored' t shown s given room =
    let loaded = load_paired_tokens stored s in
    let kept = note_refreshed now t (refresh now t loaded) loaded in
    let s' : PskTokens = record s { paired = some kept } in
    let there : is_paired t kept ≡ true =
      note_refreshed-is_paired t now loaded (refresh now t loaded) refl room in
    let listed = (handshake_tokens_lem stored' shown s').2 t given in
    rw given (ground (arith, listed, there))
