-- ===== src/Agent/Tokens.antt =====
-- cmd/agent/psktokens.go: the pairing tokens with which a controller may answer a handshake, and the
-- choice of the one that matched. The file that they are kept in is an argument.
use runeverything.Base.Bytes.{Bytes, bytes_eq}
pub mod Handshake
pub mod Kept
use runeverything.Base.Members.{member}
use runeverything.Base.{
  ℕ, ◌+◌, ◌-◌, Bool, true, false, not, ◌&&◌, ◌||◌, Option, none, some, List, [], ◌∷◌, ◌++◌, ltb,
  if◌then◌else◌, ◌==◌, length, take, drop,
}

abbrev pub max_paired_tokens : ℕ
max_paired_tokens = 16

abbrev pub max_recent_tokens : ℕ
max_recent_tokens = 4

pub record PairedToken : Type 0 where
  pub token : Bytes
  pub last_ok : ℕ

-- `paired` is `none` until the file is read.
pub record PskTokens : Type 0 where
  pub paired : Option (List PairedToken)
  pub recent : List Bytes

-- `loadPairedTokensLocked`; `stored` is what the file holds, and nothing if it cannot be read.
unfoldable pub load_paired_tokens : List PairedToken → PskTokens → List PairedToken
load_paired_tokens stored s = elim s.paired [ none ↦ stored | some paired ↦ paired ]

-- What `loadPairedTokensLocked` leaves behind.
unfoldable pub with_loaded : List PairedToken → PskTokens → PskTokens
unfolding load_paired_tokens
with_loaded stored s = record s { paired = some (load_paired_tokens stored s) }

unfoldable pub note_issued_token : Bytes → PskTokens → PskTokens
note_issued_token token s = if length token == 0 || member token s.recent then s else record s {
  recent = drop (length (s.recent ++ (token ∷ [])) - max_recent_tokens) (s.recent ++ (token ∷ []));
}

-- The loop over the paired tokens: `none` if the token was used in the last minute, otherwise the
-- tokens and whether it was found.
unfoldable pub refresh : ℕ → Bytes → List PairedToken → Option (List PairedToken × Bool)
refresh now token [] = some ([], false)
refresh now token (p ∷ ps) =
    let rest = refresh now token ps in
    if bytes_eq p.token token
    then (if ltb now (p.last_ok + 60) then none else some (record p { last_ok = now } ∷ ps, true))
    else elim rest [ none ↦ none | some (qs, found) ↦ some (p ∷ qs, found) ]

-- `sort.SliceStable`, the latest first.
unfoldable pub put_latest : PairedToken → List PairedToken → List PairedToken
put_latest p [] = p ∷ []
put_latest p (q ∷ qs) = if ltb p.last_ok q.last_ok then q ∷ put_latest p qs else p ∷ q ∷ qs

unfoldable pub sort_latest : List PairedToken → List PairedToken
unfolding put_latest
sort_latest [] = []
sort_latest (p ∷ ps) = put_latest p (sort_latest ps)

note_refreshed : ℕ → Bytes → Option (List PairedToken × Bool) → List PairedToken → List PairedToken
unfolding sort_latest
note_refreshed now token none loaded = loaded
note_refreshed now token (some (ps, found)) loaded =
    take max_paired_tokens
      (sort_latest (if found then ps else ps ++ (record { token = token; last_ok = now } ∷ [])))

-- What is loaded stays loaded, also if the token was used in the last minute.
unfoldable pub note_paired_token : ℕ → List PairedToken → Bytes → PskTokens → PskTokens
unfolding load_paired_tokens refresh note_refreshed
note_paired_token now stored token s =
    if length token == 0
    then s
    else (let loaded = load_paired_tokens stored s in
        record s { paired = some (note_refreshed now token (refresh now token loaded) loaded) })

-- `add`; what `seen` holds is what `out` holds.
abbrev pub add_token : Bytes → List Bytes → List Bytes
add_token t out = if not (length t == 0) && not (member t out) then out ++ (t ∷ []) else out

unfoldable pub add_paired : List PairedToken → List Bytes → List Bytes
add_paired [] out = out
add_paired (p ∷ ps) out = add_paired ps (add_token p.token out)

-- From the last to the first.
unfoldable pub add_recent : List Bytes → List Bytes → List Bytes
add_recent [] out = out
add_recent (t ∷ ts) out = add_token t (add_recent ts out)

unfoldable pub handshake_tokens : List PairedToken → Bytes → PskTokens → List Bytes
unfolding add_paired add_recent load_paired_tokens
handshake_tokens stored pairing_token s =
    add_recent s.recent (add_paired (load_paired_tokens stored s) (add_token pairing_token []))
