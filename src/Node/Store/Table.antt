-- ===== src/Node/Store/Table.antt =====
-- What the table of internal/p2p/peerstore.go holds, whatever is put into it.
use mathlib.Core.Path.{subst}
use runeverything.Node.Store.{
  Peer, Store, upsert, upsert_checked, upsert_parsed, set_self, new_store, expire, unexpired,
  is_stale, seen_at, all_of, list,
}
use runeverything.Base.Members.{IsIn, at_head, at_tail}
use runeverything.Node.Url.{Urls, Url, Checked, valid, invalid, normalize_relay_url, is_ws}
use runeverything.Base.Bytes.{Bytes, bytes_eq}
use runeverything.Base.Maps.{All-insert, lookup, bytes_eq_instance}
use runeverything.Base.{
  ℕ, ◌≡◌, refl, sym, inl, inr, Bool, true, false, not, ◌&&◌, Option, none, some, List, [], ◌∷◌,
  ◌==◌, Bool-cases, length, is_some, All, some-injective,
}

-- What is done to a table, at a time.
pub data Op : Type 0 where
  upserts : ℕ → Peer → Op
  names_self : Bytes → Op
  expires : ℕ → Op

unfoldable pub apply_op : Urls → Op → Store → Store
apply_op urls (upserts now p) s = (upsert urls now p s).0
apply_op urls (names_self url) s = set_self urls url s
apply_op urls (expires now) s = expire now s

unfoldable pub run_ops : Urls → List Op → Store → Store
run_ops urls [] s = s
run_ops urls (o ∷ os) s = run_ops urls os (apply_op urls o s)

-- The entry under `k`: a peer of that normalized address, which was seen at some time; a relay
-- without TLS only if the table allows it.
pub record IsEntry (urls : Urls) (allow_ws : Bool) (k : Bytes) (p : Peer) : Type 0 where
  pub url_eq : p.url ≡ k
  pub was_seen : is_some p.last_seen ≡ true
  pub raw : Bytes
  pub normal : normalize_relay_url urls raw ≡ valid k
  pub parsed : Url
  pub parses : urls.parse k ≡ some parsed
  pub allowed : (is_ws parsed.scheme && not allow_ws) ≡ false

abbrev pub IsTable : Urls → Store → Type 0
IsTable urls s = All (λ e. IsEntry urls s.allow_ws e.0 e.1) s.peers

module _ (urls : Urls) (allow_ws : Bool) where
  unexpired-IsEntry :
      (now ttl : ℕ) (m : List (Bytes × Peer))
      → All (λ e. IsEntry urls allow_ws e.0 e.1) m
      → All (λ e. IsEntry urls allow_ws e.0 e.1) (unexpired now ttl m)
  unfolding unexpired
  unexpired-IsEntry now ttl [] h = h
  unexpired-IsEntry now ttl ((k, p) ∷ m) (w, h) = elim (Bool-cases (is_stale now ttl p)) [
    | inl stale ↦ rw stale (unexpired-IsEntry now ttl m h)
    | inr fresh ↦ rw fresh (w, unexpired-IsEntry now ttl m h)
  ]

seen_at-is_some : (now : ℕ) (o : Option ℕ) → is_some (seen_at now o) ≡ true
seen_at-is_some now none = refl
seen_at-is_some now (some t) = refl

upsert_parsed-IsTable :
    (urls : Urls) (now : ℕ) (p : Peer) (nu raw : Bytes) (o : Option Url) (s : Store)
    → urls.parse nu ≡ o
    → normalize_relay_url urls raw ≡ valid nu
    → IsTable urls s
    → IsTable urls (upsert_parsed now p nu o s).0
unfolding upsert_parsed
upsert_parsed-IsTable urls now p nu raw none s e n h = h
upsert_parsed-IsTable urls now p nu raw (some u) s e n h =
    elim (Bool-cases (is_ws u.scheme && not s.allow_ws)) [
      | inl plain ↦ rw plain h
      | inr allowed ↦ elim (Bool-cases (not (length s.self_url == 0) && bytes_eq nu s.self_url)) [
        | inl own ↦ rw (allowed, own) h
        | inr other ↦
            rw (allowed, other)
              (All-insert (λ x. IsEntry urls s.allow_ws x.0 x.1) nu _ s.peers
                (record {
                  url_eq = refl;
                  was_seen = seen_at-is_some now p.last_seen;
                  raw = raw;
                  normal = n;
                  parsed = u;
                  parses = e;
                  allowed = allowed;
                })
                h)
      ]
    ]

upsert_checked-IsTable :
    (urls : Urls) (now : ℕ) (p : Peer) (raw : Bytes) (c : Checked) (s : Store)
    → normalize_relay_url urls raw ≡ c
    → IsTable urls s
    → IsTable urls (upsert_checked urls now p c s).0
unfolding upsert_checked
upsert_checked-IsTable urls now p raw (invalid e) s n h = h
upsert_checked-IsTable urls now p raw (valid nu) s n h =
    upsert_parsed-IsTable urls now p nu raw (urls.parse nu) s refl n h

apply_op-IsTable :
    (urls : Urls) (o : Op) (s : Store) → IsTable urls s → IsTable urls (apply_op urls o s)
unfolding apply_op upsert set_self expire
apply_op-IsTable urls (upserts now p) s h =
    upsert_checked-IsTable urls now p p.url (normalize_relay_url urls p.url) s refl h
apply_op-IsTable urls (names_self url) s h = h
apply_op-IsTable urls (expires now) s h = unexpired-IsEntry urls s.allow_ws now s.ttl s.peers h

run_ops-IsTable :
    (urls : Urls) (os : List Op) (s : Store) → IsTable urls s → IsTable urls (run_ops urls os s)
unfolding run_ops
run_ops-IsTable urls [] s h = h
run_ops-IsTable urls (o ∷ os) s h = run_ops-IsTable urls os _ (apply_op-IsTable urls o s h)

all_of-IsIn :
    (now ttl : ℕ) (k : Bytes) (m : List (Bytes × Peer)) {p : Peer}
    → lookup k m ≡ some p
    → is_stale now ttl p ≡ false
    → IsIn p (all_of (unexpired now ttl m))
unfolding lookup unexpired
all_of-IsIn now ttl k [] e f = absurd (cc)
all_of-IsIn now ttl k ((j, q) ∷ m) {p} e f = elim (Bool-cases (bytes_eq j k)) [
  | inl at ↦
      let same : q ≡ p = some-injective (rw at at e) in
      let fresh : is_stale now ttl q ≡ false = rw same f in rw fresh (at_head (sym same))
  | inr off ↦
      let rest = all_of-IsIn now ttl k m (rw off at e) f in
      elim (Bool-cases (is_stale now ttl q)) [
        | inl stale ↦ rw stale rest
        | inr fresh ↦ rw fresh (at_tail rest)
      ]
]

-- A peer that the list has, seen within the lifetime, with its own normalized address.
pub record IsListed (urls : Urls) (allow_ws : Bool) (now ttl : ℕ) (p : Peer) : Type 0 where
  pub fresh : is_stale now ttl p ≡ false
  pub entry : IsEntry urls allow_ws p.url p

all_of-IsListed :
    (urls : Urls) (allow_ws : Bool) (now ttl : ℕ) (m : List (Bytes × Peer))
    → All (λ e. IsEntry urls allow_ws e.0 e.1) m
    → All (IsListed urls allow_ws now ttl) (all_of (unexpired now ttl m))
unfolding unexpired
all_of-IsListed urls allow_ws now ttl [] h = tt
all_of-IsListed urls allow_ws now ttl ((k, p) ∷ m) (w, h) = elim (Bool-cases (is_stale now ttl p)) [
  | inl stale ↦ rw stale (all_of-IsListed urls allow_ws now ttl m h)
  | inr fresh ↦
      let own : IsEntry urls allow_ws p.url p =
        subst (λ u. IsEntry urls allow_ws u p) (sym w.url_eq) w in
      rw fresh (record { fresh = fresh; entry = own }, all_of-IsListed urls allow_ws now ttl m h)
]

-- Whatever is put into a new table, named as its own address and expired: every entry has its own
-- normalized address as its key, was seen at some time, and is without TLS only if the table allows
-- it. The list that is given out has only such peers, seen within the lifetime, and it has every
-- peer that can be looked up and was seen within the lifetime.
pub list-run_ops :
    (urls : Urls) (ttl now : ℕ) (allow_ws : Bool) (os : List Op)
    → let s = run_ops urls os (new_store ttl allow_ws) in
      IsTable urls s
      × All (IsListed urls s.allow_ws now s.ttl) (list now s).1
      × ((k : Bytes) (p : Peer)
          → lookup k s.peers ≡ some p
          → is_stale now s.ttl p ≡ false
          → IsIn p (list now s).1)
unfolding new_store list expire
list-run_ops urls ttl now allow_ws os =
    let s = run_ops urls os (new_store ttl allow_ws) in
    let table : IsTable urls s = run_ops-IsTable urls os (new_store ttl allow_ws) tt in
    (
      table,
      all_of-IsListed urls s.allow_ws now s.ttl s.peers table,
      λ k p there fresh. all_of-IsIn now s.ttl k s.peers there fresh,
    )
