-- ===== src/Node/Store.antt =====
-- internal/p2p/peerstore.go: the table of the relays that are known, and what `outboundMsg` of
-- internal/p2p/gossip.go makes of it. Times are numbers on one clock; a limit, a load or a lifetime
-- that is not positive is 0.
pub mod Table
pub mod Rotation
use runeverything.Node.Url.{
  Urls, Url, UrlError, invalid_scheme, Checked, valid, invalid, normalize_relay_url, is_ws,
}
use runeverything.Base.Bytes.{Bytes, bytes_eq}
use runeverything.Base.Maps.{lookup, insert, bytes_eq_instance}
use runeverything.Base.{
  ℕ, zero, suc, ◌+◌, ◌*◌, ◌%◌, Bool, true, false, not, ◌&&◌, ◌||◌, Option, none, some, List, [],
  ◌∷◌, ltb, leb, ◌==◌, if◌then◌else◌, length, get_or, is_some,
}

pub record Peer : Type 0 where
  pub url : Bytes
  pub udp : Bytes
  pub region : Bytes
  pub load : ℕ
  pub version : Bytes
  -- `none` is the zero time.
  pub last_seen : Option ℕ

pub record PeersResponse : Type 0 where
  pub self : Bytes
  pub peers : List Peer

pub record Store : Type 0 where
  pub peers : List (Bytes × Peer)
  pub self_url : Bytes
  pub ttl : ℕ
  pub allow_ws : Bool

-- In nanoseconds.
abbrev pub default_peer_ttl : ℕ
default_peer_ttl = 15 * 60 * 1000000000

unfoldable pub new_store : ℕ → Bool → Store
new_store ttl allow_ws = record {
  peers = [];
  self_url = [];
  ttl = if ttl == 0 then default_peer_ttl else ttl;
  allow_ws = allow_ws;
}

self_of : Urls → Bytes → Checked → Bytes
self_of urls url (valid u) = u
self_of urls url (invalid e) = urls.trim_space url

unfoldable pub set_self : Urls → Bytes → Store → Store
unfolding self_of
set_self urls url s = record s { self_url = self_of urls url (normalize_relay_url urls url) }

-- `panics` is a use of the `nil` that `url.Parse` gives with an error.
pub data UpsertResult : Type 0 where
  upserted skipped panics : UpsertResult
  refused : UrlError → UpsertResult

abbrev pub seen_at : ℕ → Option ℕ → Option ℕ
seen_at now none = some now
seen_at now (some t) = some t

unfoldable pub upsert_parsed : ℕ → Peer → Bytes → Option Url → Store → Store × UpsertResult
upsert_parsed now p nu none s = (s, panics)
upsert_parsed now p nu (some u) s =
    if is_ws u.scheme && not s.allow_ws
    then (s, refused invalid_scheme)
    else if not (length s.self_url == 0) && bytes_eq nu s.self_url
    then (s, skipped)
    else (
      record s {
        peers = insert nu (record p { url = nu; last_seen = seen_at now p.last_seen }) s.peers;
      },
      upserted,
    )

unfoldable pub upsert_checked : Urls → ℕ → Peer → Checked → Store → Store × UpsertResult
unfolding upsert_parsed
upsert_checked urls now p (invalid e) s = (s, refused e)
upsert_checked urls now p (valid nu) s = upsert_parsed now p nu (urls.parse nu) s

unfoldable pub upsert : Urls → ℕ → Peer → Store → Store × UpsertResult
unfolding upsert_checked
upsert urls now p s = upsert_checked urls now p (normalize_relay_url urls p.url) s

abbrev no_error : UpsertResult → Bool
no_error upserted = true
no_error skipped = true
no_error panics = false
no_error (refused e) = false

-- The number of calls without an error.
unfoldable pub upsert_many : Urls → ℕ → List Peer → Store → Store × ℕ
upsert_many urls now [] s = (s, 0)
upsert_many urls now (p ∷ ps) s =
    let (s1, r) = upsert urls now p s in
    let (s2, n) = upsert_many urls now ps s1 in (s2, if no_error r then n + 1 else n)

-- `LastSeen.Before(now - ttl)`
abbrev pub is_stale : ℕ → ℕ → Peer → Bool
is_stale now ttl p = elim p.last_seen [ none ↦ true | some t ↦ ltb (t + ttl) now ]

unfoldable pub unexpired : ℕ → ℕ → List (Bytes × Peer) → List (Bytes × Peer)
unexpired now ttl [] = []
unexpired now ttl ((k, p) ∷ m) =
    if is_stale now ttl p then unexpired now ttl m else (k, p) ∷ unexpired now ttl m

unfoldable pub expire : ℕ → Store → Store
unfolding unexpired
expire now s = record s { peers = unexpired now s.ttl s.peers }

abbrev pub all_of : List (Bytes × Peer) → List Peer
all_of [] = []
all_of ((k, p) ∷ m) = p ∷ all_of m

unfoldable pub list : ℕ → Store → Store × List Peer
unfolding expire
list now s = (expire now s, all_of (expire now s).peers)

unfoldable pub snapshot_for_gossip : ℕ → Bool → Store → Store × PeersResponse
unfolding list
snapshot_for_gossip now include_self s =
    let (s', ps) = list now s in
    (s', record { self = if include_self then s'.self_url else []; peers = ps })

abbrev pub no_peer : Peer
no_peer = record { url = []; udp = []; region = []; load = 0; version = []; last_seen = none }

-- The loop of `RandomURLs`: `k` rounds from the `i`-th on.
unfoldable pub rotate : List Peer → ℕ → ℕ → ℕ → List Bytes
rotate ps off i zero = []
rotate ps off i (suc k) = (get_or ps ((off + i) % length ps) no_peer).url ∷ rotate ps off (i + 1) k

-- `clock` is the later look at the clock that turns the list.
unfoldable pub random_urls : ℕ → ℕ → ℕ → Store → Store × List Bytes
unfolding rotate list
random_urls now clock limit s =
    let (s', ps) = list now s in
    let n = if limit == 0 || ltb (length ps) limit then length ps else limit in
    (s', if length ps == 0 then [] else rotate ps (clock % length ps) 0 n)

-- The loop over the peers: the first with the own address is replaced.
unfoldable pub put_self : Peer → List Peer → Option (List Peer)
put_self me [] = none
put_self me (p ∷ ps) =
    let rest = put_self me ps in
    if bytes_eq p.url me.url
    then some (me ∷ ps)
    else elim rest [ none ↦ none | some qs ↦ some (p ∷ qs) ]

abbrev or_first : Peer → List Peer → Option (List Peer) → List Peer
or_first me ps none = me ∷ ps
or_first me ps (some qs) = qs

unfoldable pub outbound_msg : ℕ → Bool → Bytes → ℕ → Bytes → Store → Store × PeersResponse
unfolding put_self snapshot_for_gossip
outbound_msg now share region load version s =
    let (s', snap) = snapshot_for_gossip now share s in
    let me : Peer = record {
      url = snap.self;
      udp = [];
      region = region;
      load = load;
      version = version;
      last_seen = some now;
    } in
    (
      s',
      if share && not (length snap.self == 0)
          then record snap { peers = or_first me snap.peers (put_self me snap.peers) }
          else snap,
    )
