-- ===== src/Node/Crawl.antt =====
-- `Crawl` of internal/p2p/crawl.go: from the seeds to the relays that they know, and on.
pub mod Found
pub mod Ends
pub mod Layers
pub mod Kept
pub mod Exact
use runeverything.Base.Members.{Distinct, Distinct-last, member, member-append}
use runeverything.Node.Store.{Peer, PeersResponse}
use runeverything.Node.Url.{Urls, Checked, valid, invalid, normalize_relay_url}
use runeverything.Base.Bytes.{Bytes, bytes_eq}
use runeverything.Base.{
  ℕ, zero, suc, ◌+◌, Bool, false, not, ◌&&◌, ◌||◌, Option, none, some, List, [], ◌∷◌, ◌++◌, leb,
  ◌==◌, if◌then◌else◌, length,
}

-- `FetchPeers` is a request over HTTP: what it answers, or that it fails.
pub record Net : Type 0 where
  pub urls : Urls
  pub fetch_peers : Bytes → Option PeersResponse

abbrev pub max_crawl_peers : ℕ
max_crawl_peers = 64

abbrev pub max_crawl_depth : ℕ
max_crawl_depth = 3

pub record Item : Type 0 where
  pub url : Bytes
  pub depth : ℕ

-- `queue[:qi]` and `queue[qi:]`; the order of `seen` stands for the order of an iteration.
pub record Search : Type 0 where
  pub looked_at : List Item
  pub waiting : List Item
  pub seen : List Bytes

pub data CrawlResult : Type 0 where
  relays : List Bytes → CrawlResult
  no_seeds no_peers : CrawlResult

unfoldable pub add_checked : Checked → ℕ → Search → Search
add_checked (invalid e) depth s = s
add_checked (valid u) depth s =
    if member u s.seen || leb max_crawl_peers (length s.seen) then s else record s {
      waiting = s.waiting ++ (record { url = u; depth = depth } ∷ []);
      seen = s.seen ++ (u ∷ []);
    }

unfoldable pub add : Urls → Bytes → ℕ → Search → Search
unfolding add_checked
add urls raw depth s = add_checked (normalize_relay_url urls raw) depth s

unfoldable pub add_all : Urls → List Bytes → ℕ → Search → Search
add_all urls [] depth s = s
add_all urls (raw ∷ raws) depth s = add_all urls raws depth (add urls raw depth s)

abbrev pub urls_of : List Peer → List Bytes
urls_of [] = []
urls_of (p ∷ ps) = p.url ∷ urls_of ps

unfoldable pub add_answer : Urls → Option PeersResponse → ℕ → Search → Search
add_answer urls none depth s = s
add_answer urls (some r) depth s =
    add_all urls (urls_of r.peers) (depth + 1)
      (if length r.self == 0 then s else add urls r.self (depth + 1) s)

-- One round of the loop, for the item at `qi`.
unfoldable pub visit : Net → Item → Search → Search
visit net it s =
    if leb max_crawl_depth it.depth
    then s
    else add_answer net.urls (net.fetch_peers it.url) it.depth s

-- Each round moves on by one item, and there are never more than 64.
unfoldable pub crawl_loop : ℕ → Net → Search → Search
crawl_loop zero net s = s
crawl_loop (suc fuel) net s = elim s.waiting [
  | [] ↦ s
  | ◌∷◌ it rest ↦
      crawl_loop fuel net
        (visit net it (record s { looked_at = s.looked_at ++ (it ∷ []); waiting = rest }))
]

-- `sticky` is already trimmed.
unfoldable pub first_items : Urls → Bytes → List Bytes → Search
first_items urls sticky seeds =
    let none_yet : Search = record { looked_at = []; waiting = []; seen = [] } in
    add_all urls seeds 0 (if length sticky == 0 then none_yet else add urls sticky 0 none_yet)

unfoldable pub found : List Bytes → CrawlResult
found [] = no_peers
found (u ∷ us) = relays (u ∷ us)

unfoldable pub crawl_from : Net → Bytes → List Bytes → CrawlResult
unfolding found
crawl_from net sticky seeds =
    found
      (crawl_loop max_crawl_peers net
        (first_items net.urls (net.urls.trim_space sticky) seeds)).seen

-- `seeds` is what `SeedURLs` answers; without seeds a sticky relay is enough.
unfoldable pub crawl : Net → Bytes → Option (List Bytes) → CrawlResult
crawl net sticky none = if length sticky == 0 then no_seeds else crawl_from net sticky []
crawl net sticky (some seeds) = crawl_from net sticky seeds
