-- ===== src/Node/Crawl/Exact.antt =====
-- What `Crawl` of internal/p2p/crawl.go finds: the relays within three steps of the seeds.
use runeverything.Base.Members.{Distinct, member}
use runeverything.Node.Crawl.Found.{Put, add_all-Put, places}
use runeverything.Node.Crawl.Kept.{
  Linked, start_named, peer_named, Placed, Answered, IsLinked, Kept, Put-Placed, crawl_loop-Kept,
  more-IsLinked,
}
use runeverything.Node.Crawl.Ends.{
  offers, roots, empty_search, crawl_loop-ends, first_items-Grown, first_items-Listed,
  first_items-roots,
}
use runeverything.Node.Crawl.Layers.{Layered-next, placed, placed-member, placed_mono}
use runeverything.Node.Crawl.{
  Net, Item, Search, relays, crawl_loop, first_items, found, crawl, crawl_from, max_crawl_peers,
  max_crawl_depth,
}
use runeverything.Node.Store.{PeersResponse}
use runeverything.Node.Url.{normalize_relay_url, valid}
use runeverything.Base.Bytes.{Bytes, bytes_eq, bytes_eq_iff}
use runeverything.Base.{
  ℕ, ◌+◌, ◌≤◌, ◌<◌, ◌≡◌, refl, ◌∙◌, inl, inr, true, ◌&&◌, Option, none, some, List, [], ◌∷◌, ◌++◌,
  append-nil, arith, leb, ◌==◌, Bool-cases, length, All, All-mono,
}

module _ (net : Net) (sticky : Bytes) (seeds : List Bytes) where
  start-Kept : Kept net (roots sticky seeds) (first_items net.urls sticky seeds)
  start-Kept =
      let starts = roots sticky seeds in
      let s = first_items net.urls sticky seeds in
      let P : Bytes → Type 0 = λ u. (0 ≤ max_crawl_depth) × Linked net starts 0 u in
      let g =
        first_items-Grown P net.urls sticky seeds
          (λ raw u m n. (omega arith, start_named raw u m n)) in
      let listed = first_items-Listed net.urls sticky seeds in
      let near : All (λ x. x.depth ≤ 0) (s.looked_at ++ s.waiting) =
        rw (g.looked_eq, g.waiting_eq) (All-mono g.more (λ x h. omega (arith, h)) g.at_depth) in
      let put : (raw u : Bytes)
          → member raw starts ≡ true
          → normalize_relay_url net.urls raw ≡ valid u
          → Put u s =
        λ raw u m n.
          rw (first_items-roots net.urls sticky seeds)
            (add_all-Put (λ u. Unit) net.urls starts raw u 0 empty_search (λ raw u m e. tt) m n) in
      record {
        listed = listed;
        linked_looked = rw g.looked_eq tt;
        linked_waiting = rw g.waiting_eq (more-IsLinked net starts 0 g.more g.at_depth g.all_P);
        rooted = λ raw u m n. Put-Placed net starts u 0 s listed near (put raw u m n);
        level = 0;
        levels = record {
          layered = rw g.waiting_eq (Layered-next 0 g.more g.at_depth);
          below = rw g.looked_eq tt;
        };
        answered = rw g.looked_eq tt;
      }

module _ (net : Net) (starts : List Bytes) where
  member-Linked :
      (u : Bytes) (xs : List Item)
      → All (IsLinked net starts) xs
      → member u (places xs) ≡ true
      → (k : ℕ) × (k ≤ max_crawl_depth) × Linked net starts k u
  unfolding member
  member-Linked u [] h m = absurd (ground arith)
  member-Linked u (x ∷ xs) h m = elim (Bool-cases (bytes_eq x.url u)) [
    | inl same ↦
        let here : x.url ≡ u = ground (arith, bytes_eq_iff x.url u) in
        (x.depth, h.0.0, rw here at h.0.1)
    | inr other ↦ member-Linked u xs h.1 (ground arith)
  ]

  -- The answer of a relay in the queue has been followed.
  placed-answered :
      (s : Search) (v : Bytes) (k : ℕ) (xs : List Item) (r : PeersResponse) (raw u : Bytes)
      → All (Answered net starts s) xs
      → placed v k xs ≡ true
      → k < max_crawl_depth
      → net.fetch_peers v ≡ some r
      → member raw (offers r) ≡ true
      → normalize_relay_url net.urls raw ≡ valid u
      → Placed net starts u (k + 1) s
  unfolding placed
  placed-answered s v k [] r raw u h at near told m n = absurd (ground arith)
  placed-answered s v k (x ∷ xs) r raw u h at near told m n =
      elim (Bool-cases (bytes_eq x.url v && leb x.depth k)) [
        | inl here ↦
            let same : x.url ≡ v = ground (arith, bytes_eq_iff x.url v) in
            let low : x.depth ≤ k = ground arith in
            ground (
              arith,
              h.0 r raw u (omega arith) (rw same told) m n,
              placed_mono u (x.depth + 1) (k + 1) (s.looked_at ++ s.waiting),
            )
        | inr other ↦ placed-answered s v k xs r raw u h.1 (ground arith) near told m n
      ]

  Linked-placed :
      (s : Search) (k : ℕ) (u : Bytes)
      → Kept net starts s
      → s.waiting ≡ []
      → length s.seen < max_crawl_peers
      → k ≤ max_crawl_depth
      → Linked net starts k u
      → placed u k (s.looked_at ++ s.waiting) ≡ true
  Linked-placed s k u v e room le (start_named raw _ m n) = ground (arith, v.rooted raw u m n)
  Linked-placed s k u v e room le (peer_named {k = j} {v = w} r raw _ l told m n) =
      let before = Linked-placed s j w v e room (omega arith) l in
      let at : placed w j s.looked_at ≡ true = rw (e, append-nil s.looked_at) at before in
      ground (arith, placed-answered s w j s.looked_at r raw u v.answered at (omega arith) told m n)

-- What a crawl that ends in a list has found.
pub record Exact (net : Net) (starts out : List Bytes) : Type 0 where
  pub distinct : Distinct out
  pub bounded : length out ≤ max_crawl_peers
  pub sound :
      (u : Bytes) → member u out ≡ true → (k : ℕ) × (k ≤ max_crawl_depth) × Linked net starts k u
  pub complete :
      (k : ℕ) (u : Bytes)
      → length out < max_crawl_peers
      → k ≤ max_crawl_depth
      → Linked net starts k u
      → member u out ≡ true

search-Exact :
    (net : Net) (sticky : Bytes) (seeds : List Bytes)
    → Exact net
        (roots sticky seeds)
        (crawl_loop max_crawl_peers net (first_items net.urls sticky seeds)).seen
search-Exact net sticky seeds =
    let starts = roots sticky seeds in
    let s0 = first_items net.urls sticky seeds in
    let s = crawl_loop max_crawl_peers net s0 in
    let v = crawl_loop-Kept net starts max_crawl_peers s0 (start-Kept net sticky seeds) in
    let ended =
      crawl_loop-ends max_crawl_peers net s0 (first_items-Listed net.urls sticky seeds)
        (omega arith) in
    let all_seen : s.seen ≡ places s.looked_at =
      v.listed.seen_eq ∙ rw (ended, append-nil s.looked_at) refl in
    record {
      distinct = v.listed.distinct;
      bounded = v.listed.fits;
      sound = λ u m. member-Linked net starts u s.looked_at v.linked_looked (rw all_seen at m);
      complete = λ k u room le l. rw v.listed.seen_eq (
          placed-member u k (s.looked_at ++ s.waiting)
            (Linked-placed net starts s k u v ended room le l));
    }

found-relays : (us out : List Bytes) → found us ≡ relays out → us ≡ out
unfolding found
found-relays [] out e = absurd (cc)
found-relays (u ∷ us) out e = cc

abbrev pub seeds_of : Option (List Bytes) → List Bytes
seeds_of none = []
seeds_of (some seeds) = seeds

crawl_from-Exact :
    (net : Net) (sticky : Bytes) (seeds out : List Bytes)
    → crawl_from net sticky seeds ≡ relays out
    → Exact net (roots (net.urls.trim_space sticky) seeds) out
unfolding crawl_from
crawl_from-Exact net sticky seeds out e =
    rw (found-relays _ out e) at (search-Exact net (net.urls.trim_space sticky) seeds)

-- A crawl that ends in a list of relays lists no relay twice and at most 64. Each of them is led to
-- from the sticky relay and the seeds by at most three answers; and if there are fewer than 64, all
-- that are led to by at most three answers are listed.
pub crawl-Exact :
    (net : Net) (sticky : Bytes) (seeds : Option (List Bytes)) (out : List Bytes)
    → crawl net sticky seeds ≡ relays out
    → Exact net (roots (net.urls.trim_space sticky) (seeds_of seeds)) out
unfolding crawl
crawl-Exact net sticky (some seeds) out e = crawl_from-Exact net sticky seeds out e
crawl-Exact net sticky none out e = elim (Bool-cases (length sticky == 0)) [
  | inl alone ↦ absurd (cc)
  | inr given ↦ crawl_from-Exact net sticky [] out (ground (arith, e))
]
