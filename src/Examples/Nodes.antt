-- ===== src/Examples/Nodes.antt =====
-- A few relays that know each other, for internal/p2p.
use runeverything.Base.Members.{IsIn, Distinct, member}
use runeverything.Node.Crawl.Exact.{Exact, crawl-Exact}
use runeverything.Node.Crawl.Ends.{roots, crawl_loop_enough}
use runeverything.Node.Crawl.{
  Net, relays, crawl, crawl_from, crawl_loop, first_items, add, add_all, add_checked, add_answer,
  visit, found, max_crawl_peers,
}
use runeverything.Node.Store.Table.{
  IsListed, Op, upserts, names_self, expires, run_ops, IsTable, list-run_ops,
}
use runeverything.Node.Store.{Peer, Store, new_store, is_stale, list, no_peer}
use runeverything.Node.Select.Lowest.{Chosen, select_lowest_ping-Chosen}
use runeverything.Node.Select.{ProbeResult, selected, select_lowest_ping}
use runeverything.Node.Load.Top.{has_healthy, top_relays_lem}
use runeverything.Node.Load.{ScoredRelay, scored, top_relays}
use runeverything.Base.Float64.{whole}
use runeverything.Node.Registry.{
  AnnounceRequest, Entry, entry_of, announce, announce_checked, announce_parsed, announced,
  new_registry, list_relays, list_relays-announce,
}
use runeverything.Node.Url.{Urls, normalize_relay_url, normalize_url, canonical}
use runeverything.Base.Bytes.{Bytes, bytes_eq, codes}
use runeverything.Base.Maps.{lookup, bytes_eq_instance}
use runeverything.Base.{
  ◌+◌, ℕ, ◌≤◌, ◌||◌, ◌≡◌, ◌<◌, refl, inl, inr, false, none, some, List, [], ◌∷◌, arith, All, length,
  if◌then◌else◌,
}

-- A text is a host, reached over TLS.
abbrev urls : Urls
urls = record {
  parse = λ b. some (record {
    scheme = codes "wss";
    host = b;
    path = [];
    raw_query = [];
    fragment = [];
    rest = [];
  });
  print = λ u. u.host;
  trim_space = λ b. b;
}

abbrev peer : Bytes → Peer
peer b = record no_peer { url = b }

-- The relay `a` knows `b` and `c`, and `b` knows `a`.
abbrev net : Net
net = record {
  urls = urls;
  fetch_peers = λ u.
      if bytes_eq u (codes "a")
      then some (record { self = codes "a"; peers = peer (codes "b") ∷ peer (codes "c") ∷ [] })
      else if bytes_eq u (codes "b")
      then some (record { self = []; peers = peer (codes "a") ∷ [] })
      else none;
}

abbrev all_three : List Bytes
all_three = codes "a" ∷ codes "b" ∷ codes "c" ∷ []

crawl_three : crawl net [] (some (codes "a" ∷ [])) ≡ relays all_three
unfolding crawl crawl_from crawl_loop first_items add add_all add_checked add_answer visit found
    member normalize_relay_url normalize_url canonical bytes_eq
crawl_three = refl

crawl-Exact_example : Exact net (roots [] (codes "a" ∷ [])) all_three
crawl-Exact_example = crawl-Exact net [] (some (codes "a" ∷ [])) all_three crawl_three

crawl_loop_enough_example :
    ((crawl_loop max_crawl_peers net (first_items urls [] (codes "a" ∷ []))).waiting ≡ [])
    × (crawl_loop 70 net (first_items urls [] (codes "a" ∷ []))
        ≡ crawl_loop max_crawl_peers net (first_items urls [] (codes "a" ∷ [])))
crawl_loop_enough_example = crawl_loop_enough net [] (codes "a" ∷ []) 70 (omega arith)

abbrev ops : List Op
ops =
    upserts 5 (peer (codes "a"))
    ∷ names_self (codes "b")
    ∷ upserts 7 (peer (codes "b"))
    ∷ expires 9
    ∷ []

abbrev table : Store
table = run_ops urls ops (new_store 100 false)

list-run_ops_example :
    IsTable urls table
    × All (IsListed urls table.allow_ws 20 table.ttl) (list 20 table).1
    × ((k : Bytes) (p : Peer)
        → lookup k table.peers ≡ some p
        → is_stale 20 table.ttl p ≡ false
        → IsIn p (list 20 table).1)
list-run_ops_example = list-run_ops urls 100 20 false ops

abbrev probes : List ProbeResult
probes =
    record { url = codes "a"; rtt = none }
    ∷ record { url = codes "b"; rtt = some 90 }
    ∷ record { url = codes "c"; rtt = some 40 }
    ∷ []

select_lowest_ping-Chosen_example :
    (u : Bytes) × (select_lowest_ping urls (codes "b") probes ≡ selected u)
    × Chosen (codes "b") u probes
select_lowest_ping-Chosen_example =
    select_lowest_ping-Chosen urls (codes "b") (codes "b") 90 probes (inr (inl (refl, refl)))

abbrev measured : List (ScoredRelay ℕ)
measured = scored (
    record { url = codes "a"; probe = some (90000000, 10) }
    ∷ record { url = codes "b"; probe = none }
    ∷ record { url = codes "c"; probe = some (30000000, 50) }
    ∷ [])

top_relays_lem_example :
    Distinct (top_relays 3 (codes "a") measured)
    × (length (top_relays 3 (codes "a") measured) ≤ 3)
    × ((u : Bytes)
        → length (top_relays 3 (codes "a") measured) < 3
        → member u (top_relays 3 (codes "a") measured)
          ≡ (bytes_eq (codes "a") u || has_healthy u measured))
top_relays_lem_example = top_relays_lem 3 (codes "a") measured (omega arith) (omega arith)

abbrev hello : AnnounceRequest
hello = record { url = codes "a"; region = []; load = 3; version = [] }

abbrev listed_as : Entry
listed_as = entry_of urls 5 hello (codes "a")

hello_announced : (announce urls 5 hello (new_registry 100 false)).1 ≡ announced listed_as
unfolding announce announce_checked announce_parsed new_registry normalize_relay_url normalize_url
    canonical bytes_eq
hello_announced = refl

list_relays-announce_example :
    IsIn listed_as (list_relays 90 (announce urls 5 hello (new_registry 100 false)).0).1
    × All
        (λ d. 90 ≤ d.last_seen + (new_registry 100 false).ttl)
        (list_relays 90 (announce urls 5 hello (new_registry 100 false)).0).1
unfolding new_registry
list_relays-announce_example =
    list_relays-announce urls 5 90 hello (new_registry 100 false) listed_as hello_announced
      (omega arith)
