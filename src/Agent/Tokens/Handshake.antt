-- ===== src/Agent/Tokens/Handshake.antt =====
-- `handshakeTokens` of cmd/agent/psktokens.go: the tokens with which a handshake is tried.
use runeverything.Agent.Tokens.{
  PairedToken, PskTokens, load_paired_tokens, add_token, add_paired, add_recent, handshake_tokens,
}
use runeverything.Base.Members.{member, member-append, Distinct, Distinct-last}
use runeverything.Base.Bytes.{Bytes, bytes_eq, bytes_eq_iff}
use runeverything.Base.{
  ◌≡◌, refl, ◌∙◌, inl, inr, Bool, false, not, ◌&&◌, ◌||◌, some, List, [], ◌∷◌, arith, ◌==◌,
  Bool-cases, length, get_elem?,
}

unfoldable pub is_paired : Bytes → List PairedToken → Bool
is_paired u [] = false
is_paired u (p ∷ ps) = bytes_eq p.token u || is_paired u ps

module _ (u : Bytes) (given : (length u == 0) ≡ false) where
  member-add_token :
      (t : Bytes) (out : List Bytes) → member u (add_token t out) ≡ (member u out || bytes_eq t u)
  unfolding member
  member-add_token t out = ground (arith, given, member-append u out (t ∷ []), bytes_eq_iff t u)

  member-add_paired :
      (ps : List PairedToken) (out : List Bytes)
      → member u (add_paired ps out) ≡ (member u out || is_paired u ps)
  unfolding add_paired is_paired
  member-add_paired [] out = ground arith
  member-add_paired (p ∷ ps) out =
      ground (arith, member-add_paired ps (add_token p.token out), member-add_token p.token out)

  member-add_recent :
      (ts : List Bytes) (out : List Bytes)
      → member u (add_recent ts out) ≡ (member u out || member u ts)
  unfolding add_recent member
  member-add_recent [] out = ground arith
  member-add_recent (t ∷ ts) out =
      ground (arith, member-add_recent ts out, member-add_token t (add_recent ts out))

-- Different, and none empty.
abbrev pub IsClean : List Bytes → Type 0
IsClean out = Distinct out × (member [] out ≡ false)

nonempty : (t : Bytes) → (length t == 0) ≡ false → bytes_eq t [] ≡ false
unfolding bytes_eq
nonempty [] h = absurd (ground arith)
nonempty (c ∷ t) h = refl

member_nil : (u : Bytes) → member u [] ≡ false
unfolding member
member_nil u = refl

none_empty : member [] [] ≡ false
none_empty = member_nil []

first_added : (t : Bytes) → (length t == 0) ≡ false → get_elem? (add_token t []) 0 ≡ some t
unfolding member
first_added t h = ground arith

add_token-IsClean : (t : Bytes) (out : List Bytes) → IsClean out → IsClean (add_token t out)
unfolding member bytes_eq
add_token-IsClean t out (d, e) = elim (Bool-cases (not (length t == 0) && not (member t out))) [
  | inl fresh ↦ rw fresh (
    Distinct-last t out (ground arith) d,
    ground (arith, member-append [] out (t ∷ []), e, nonempty t),
  )
  | inr old ↦ rw old (d, e)
]

add_paired-IsClean :
    (ps : List PairedToken) (out : List Bytes) → IsClean out → IsClean (add_paired ps out)
unfolding add_paired
add_paired-IsClean [] out h = h
add_paired-IsClean (p ∷ ps) out h =
    add_paired-IsClean ps (add_token p.token out) (add_token-IsClean p.token out h)

add_recent-IsClean :
    (ts : List Bytes) (out : List Bytes) → IsClean out → IsClean (add_recent ts out)
unfolding add_recent
add_recent-IsClean [] out h = h
add_recent-IsClean (t ∷ ts) out h =
    add_token-IsClean t (add_recent ts out) (add_recent-IsClean ts out h)

-- Additions leave the first one where it is.
abbrev Leads : Bytes → List Bytes → Type 0
Leads t out = get_elem? out 0 ≡ some t

add_token-Leads : (t u : Bytes) (out : List Bytes) → Leads t out → Leads t (add_token u out)
add_token-Leads t u [] h = absurd (cc)
add_token-Leads t u (v ∷ out) h = ground arith

add_paired-Leads :
    (t : Bytes) (ps : List PairedToken) (out : List Bytes)
    → Leads t out
    → Leads t (add_paired ps out)
unfolding add_paired
add_paired-Leads t [] out h = h
add_paired-Leads t (p ∷ ps) out h =
    add_paired-Leads t ps (add_token p.token out) (add_token-Leads t p.token out h)

add_recent-Leads :
    (t : Bytes) (ts : List Bytes) (out : List Bytes) → Leads t out → Leads t (add_recent ts out)
unfolding add_recent
add_recent-Leads t [] out h = h
add_recent-Leads t (u ∷ ts) out h = add_token-Leads t u _ (add_recent-Leads t ts out h)

-- The candidates of a handshake are different and none is empty. A text that is not empty is one
-- exactly if it is the pairing token that is shown, a paired token that is known, or one issued
-- lately. The pairing token comes first, if there is one.
pub handshake_tokens_lem :
    (stored : List PairedToken) (shown : Bytes) (s : PskTokens)
    → let out = handshake_tokens stored shown s in
      Distinct out
      × (member [] out ≡ false)
      × ((u : Bytes)
          → (length u == 0) ≡ false
          → member u out ≡ (
              (bytes_eq shown u || is_paired u (load_paired_tokens stored s)) || member u s.recent))
      × ((length shown == 0) ≡ false → get_elem? out 0 ≡ some shown)
unfolding handshake_tokens
handshake_tokens_lem stored shown s =
    let paired = load_paired_tokens stored s in
    let start = add_token shown [] in
    let (d, e) =
      add_recent-IsClean s.recent (add_paired paired start)
        (add_paired-IsClean paired start (add_token-IsClean shown [] (tt, none_empty))) in
    (
      d,
      e,
      λ u given.
          member-add_recent u given s.recent (add_paired paired start)
          ∙ rw (
            member-add_paired u given paired start,
            member-add_token u given shown [],
            member_nil u,
          ),
      λ given.
          add_recent-Leads shown s.recent (add_paired paired start)
            (add_paired-Leads shown paired start (first_added shown given)),
    )
