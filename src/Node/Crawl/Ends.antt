-- ===== src/Node/Crawl/Ends.antt =====
-- The loop of `Crawl` in internal/p2p/crawl.go ends: 64 rounds leave nothing to look at.
use runeverything.Base.Members.{Distinct, member}
use runeverything.Node.Crawl.Found.{Grown, Grown-refl, add_all-Grown, places, places-append}
use runeverything.Node.Crawl.{
  Net, Item, Search, add_all, add_answer, visit, crawl_loop, first_items, urls_of, max_crawl_peers,
  max_crawl_depth,
}
use runeverything.Node.Store.{PeersResponse}
use runeverything.Node.Url.{normalize_relay_url, valid, Urls}
use runeverything.Base.Bytes.{Bytes}
use runeverything.Base.{
  ℕ, zero, suc, ◌+◌, ◌≤◌, ◌<◌, ◌≡◌, refl, sym, ap, ◌∙◌, inl, inr, true, false, some, List, [], ◌∷◌,
  ◌++◌, append_assoc, arith, leb, ◌==◌, if◌then◌else◌, Bool-cases, List-cases, Option-cases, length,
  length-append,
}

-- All that an answer names, and all that the search begins with.
abbrev pub offers : PeersResponse → List Bytes
offers r = if length r.self == 0 then urls_of r.peers else r.self ∷ urls_of r.peers

abbrev pub roots : Bytes → List Bytes → List Bytes
roots sticky seeds = if length sticky == 0 then seeds else sticky ∷ seeds

pub add_answer-offers :
    (urls : Urls) (r : PeersResponse) (depth : ℕ) (s : Search)
    → add_answer urls (some r) depth s ≡ add_all urls (offers r) (depth + 1) s
unfolding add_answer add_all
add_answer-offers urls r depth s = elim (Bool-cases (length r.self == 0)) [
  | inl none_named ↦ rw none_named refl
  | inr named ↦ rw named refl
]

abbrev pub empty_search : Search
empty_search = record { looked_at = []; waiting = []; seen = [] }

pub first_items-roots :
    (urls : Urls) (sticky : Bytes) (seeds : List Bytes)
    → first_items urls sticky seeds ≡ add_all urls (roots sticky seeds) 0 empty_search
unfolding first_items add_all
first_items-roots urls sticky seeds = elim (Bool-cases (length sticky == 0)) [
  | inl no_sticky ↦ rw no_sticky refl
  | inr given ↦ rw given refl
]

pub visit_near :
    (net : Net) (it : Item) (s : Search) (r : PeersResponse)
    → it.depth < max_crawl_depth
    → net.fetch_peers it.url ≡ some r
    → visit net it s ≡ add_all net.urls (offers r) (it.depth + 1) s
unfolding visit
visit_near net it s r near told =
    let shallow : leb max_crawl_depth it.depth ≡ false = ground arith in
    rw (shallow, told) (add_answer-offers net.urls r it.depth s)

-- The search with the next item taken.
abbrev pub taken : Item → List Item → Search → Search
taken it rest s = record s { looked_at = s.looked_at ++ (it ∷ []); waiting = rest }

-- What the loop keeps of its lists.
pub record Listed (s : Search) : Type 0 where
  pub seen_eq : s.seen ≡ places (s.looked_at ++ s.waiting)
  pub fits : length s.seen ≤ max_crawl_peers
  pub distinct : Distinct s.seen

pub visit-Grown :
    (P : Bytes → Type 0) (net : Net) (it : Item) (s : Search)
    → ((r : PeersResponse) (raw u : Bytes)
        → it.depth < max_crawl_depth
        → net.fetch_peers it.url ≡ some r
        → member raw (offers r) ≡ true
        → normalize_relay_url net.urls raw ≡ valid u
        → P u)
    → Grown P (it.depth + 1) s (visit net it s)
unfolding visit add_answer
visit-Grown P net it s p = elim (Bool-cases (leb max_crawl_depth it.depth)) [
  | inl deep ↦ rw deep (Grown-refl P (it.depth + 1) s)
  | inr near ↦ elim (Option-cases (net.fetch_peers it.url)) [
    | inl mute ↦ rw (near, mute, add_answer) (Grown-refl P (it.depth + 1) s)
    | inr (r, told) ↦
        rw (near, told)
          (rw (add_answer-offers net.urls r it.depth s) (
            add_all-Grown P net.urls (offers r) (it.depth + 1) s
              (λ raw u m e. p r raw u (ground arith) told m e)))
  ]
]

pub Grown-Listed :
    (P : Bytes → Type 0) (depth : ℕ) (s s' : Search) → Grown P depth s s' → Listed s → Listed s'
Grown-Listed P depth s s' g v = record {
  seen_eq =
      rw (g.looked_eq, g.waiting_eq)
        (g.seen_eq
          ∙ ap (λ w. w ++ places g.more) v.seen_eq
          ∙ sym (places-append (s.looked_at ++ s.waiting) g.more)
          ∙ ap places (append_assoc s.looked_at s.waiting g.more));
  fits = g.fits v.fits;
  distinct = g.distinct v.distinct;
}

pub taken-Listed :
    (it : Item) (rest : List Item) (s : Search)
    → s.waiting ≡ it ∷ rest
    → Listed s
    → Listed (taken it rest s)
taken-Listed it rest s e v = record {
  seen_eq =
      v.seen_eq
      ∙ ap (λ w. places (s.looked_at ++ w)) e
      ∙ ap places (sym (append_assoc s.looked_at (it ∷ []) rest));
  fits = v.fits;
  distinct = v.distinct;
}

length-places : (xs : List Item) → length (places xs) ≡ length xs
length-places [] = refl
length-places (x ∷ xs) = omega (arith, length-places xs)

pub visit-Listed : (net : Net) (it : Item) (s : Search) → Listed s → Listed (visit net it s)
visit-Listed net it s v =
    Grown-Listed (λ u. Unit) (it.depth + 1) s _
      (visit-Grown (λ u. Unit) net it s (λ r raw u d a m e. tt)) v

no_room : (s : Search) → Listed s → max_crawl_peers ≤ length s.looked_at → s.waiting ≡ []
no_room s v h = elim (List-cases s.waiting) [
  | inl e ↦ e
  | inr (it, rest, e) ↦
      let long = length-append {A = Item} s.looked_at s.waiting in
      absurd (ground (arith, v.seen_eq, v.fits, e, long, length-places (s.looked_at ++ s.waiting)))
]

-- A round for an item at a time: how far the loop is.
visit-looked_at : (net : Net) (it : Item) (s : Search) → (visit net it s).looked_at ≡ s.looked_at
visit-looked_at net it s = (visit-Grown (λ u. Unit) net it s (λ r raw u d a m e. tt)).looked_eq

pub crawl_loop-ends :
    (fuel : ℕ) (net : Net) (s : Search)
    → Listed s
    → max_crawl_peers ≤ fuel + length s.looked_at
    → (crawl_loop fuel net s).waiting ≡ []
unfolding crawl_loop
crawl_loop-ends zero net s v h = no_room s v (omega arith)
crawl_loop-ends (suc fuel) net s v h = elim (List-cases s.waiting) [
  | inl e ↦ rw (e, crawl_loop) e
  | inr (it, rest, e) ↦
      let t = taken it rest s in
      let further = length-append {A = Item} s.looked_at (it ∷ []) in
      let same = visit-looked_at net it t in
      rw (e, crawl_loop)
        (crawl_loop-ends fuel net (visit net it t)
          (visit-Listed net it t (taken-Listed it rest s e v)) (ground (arith, further, same)))
]

-- Once nothing waits, more rounds change nothing.
pub crawl_loop_more :
    (fuel more : ℕ) (net : Net) (s : Search)
    → fuel ≤ more
    → (crawl_loop fuel net s).waiting ≡ []
    → crawl_loop more net s ≡ crawl_loop fuel net s
unfolding crawl_loop
crawl_loop_more zero zero net s le h = refl
crawl_loop_more zero (suc more) net s le h = simp (h, crawl_loop) refl
crawl_loop_more (suc fuel) zero net s le h = absurd (omega arith)
crawl_loop_more (suc fuel) (suc more) net s le h = elim (List-cases s.waiting) [
  | inl e ↦ simp (e, crawl_loop) refl
  | inr (it, rest, e) ↦
      let ended : (crawl_loop fuel net (visit net it (taken it rest s))).waiting ≡ [] =
        rw (e, crawl_loop) at h in
      rw (e, crawl_loop)
        (crawl_loop_more fuel more net (visit net it (taken it rest s)) (omega arith) ended)
]

pub first_items-Grown :
    (P : Bytes → Type 0) (urls : Urls) (sticky : Bytes) (seeds : List Bytes)
    → ((raw u : Bytes)
        → member raw (roots sticky seeds) ≡ true
        → normalize_relay_url urls raw ≡ valid u
        → P u)
    → Grown P 0 empty_search (first_items urls sticky seeds)
first_items-Grown P urls sticky seeds p =
    rw (first_items-roots urls sticky seeds)
      (add_all-Grown P urls (roots sticky seeds) 0 empty_search p)

pub first_items-Listed :
    (urls : Urls) (sticky : Bytes) (seeds : List Bytes) → Listed (first_items urls sticky seeds)
first_items-Listed urls sticky seeds =
    Grown-Listed (λ u. Unit) 0 empty_search _
      (first_items-Grown (λ u. Unit) urls sticky seeds (λ raw u m e. tt))
      (record { seen_eq = refl; fits = omega arith; distinct = tt })

-- The search of a crawl: 64 rounds leave no item that waits, and more rounds change nothing,
-- whatever the relays answer.
pub crawl_loop_enough :
    (net : Net) (sticky : Bytes) (seeds : List Bytes) (fuel : ℕ)
    → max_crawl_peers ≤ fuel
    → ((crawl_loop max_crawl_peers net (first_items net.urls sticky seeds)).waiting ≡ [])
      × (crawl_loop fuel net (first_items net.urls sticky seeds)
          ≡ crawl_loop max_crawl_peers net (first_items net.urls sticky seeds))
crawl_loop_enough net sticky seeds fuel h =
    let ended =
      crawl_loop-ends max_crawl_peers net (first_items net.urls sticky seeds)
        (first_items-Listed net.urls sticky seeds) (omega arith) in
    (ended, crawl_loop_more max_crawl_peers fuel net _ h ended)
