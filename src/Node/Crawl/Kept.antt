-- ===== src/Node/Crawl/Kept.antt =====
-- What the loop of `Crawl` in internal/p2p/crawl.go keeps true.
use runeverything.Base.Members.{member}
use runeverything.Node.Crawl.Found.{Grown, Put, add_all-Put, places}
use runeverything.Node.Crawl.Ends.{
  offers, taken, Listed, visit-Grown, Grown-Listed, taken-Listed, visit_near,
}
use runeverything.Node.Crawl.Layers.{
  Levels, Grown-Levels, Levels-near, placed, placed-append, placed_of-at_most,
}
use runeverything.Node.Crawl.{
  Net, Item, Search, visit, crawl_loop, max_crawl_peers, max_crawl_depth,
}
use runeverything.Node.Store.{PeersResponse}
use runeverything.Node.Url.{normalize_relay_url, valid}
use runeverything.Base.Bytes.{Bytes}
use mathlib.Core.Path.{subst}
use runeverything.Base.{
  ℕ, zero, suc, ◌+◌, ◌≤◌, ◌<◌, ◌≡◌, sym, ap, ◌∙◌, ◌⊎◌, inl, inr, true, some, List, [], ◌∷◌, ◌++◌,
  append_assoc, arith, List-cases, length, All, All-append, All-mono, length-append,
}

module _ (net : Net) (starts : List Bytes) where
  -- A relay that the answers lead to, in so many steps.
  pub data Linked : ℕ → Bytes → Type 0 where
    start_named :
        (raw u : Bytes)
        → member raw starts ≡ true
        → normalize_relay_url net.urls raw ≡ valid u
        → Linked 0 u
    peer_named :
        {k : ℕ} {v : Bytes} (r : PeersResponse) (raw u : Bytes)
        → Linked k v
        → net.fetch_peers v ≡ some r
        → member raw (offers r) ≡ true
        → normalize_relay_url net.urls raw ≡ valid u
        → Linked (k + 1) u

  -- The search is full, or the relay is in the queue at that depth or before.
  abbrev pub Placed : Bytes → ℕ → Search → Type 0
  Placed u k s = (max_crawl_peers ≤ length s.seen) ⊎ (placed u k (s.looked_at ++ s.waiting) ≡ true)

  abbrev pub Answered : Search → Item → Type 0
  Answered s it =
      (r : PeersResponse) (raw u : Bytes)
      → it.depth < max_crawl_depth
      → net.fetch_peers it.url ≡ some r
      → member raw (offers r) ≡ true
      → normalize_relay_url net.urls raw ≡ valid u
      → Placed u (it.depth + 1) s

  abbrev pub IsLinked : Item → Type 0
  IsLinked it = (it.depth ≤ max_crawl_depth) × Linked it.depth it.url

  pub record Kept (s : Search) : Type 0 where
    pub listed : Listed s
    pub linked_looked : All IsLinked s.looked_at
    pub linked_waiting : All IsLinked s.waiting
    pub rooted :
        (raw u : Bytes)
        → member raw starts ≡ true
        → normalize_relay_url net.urls raw ≡ valid u
        → Placed u 0 s
    pub level : ℕ
    pub levels : Levels level s
    pub answered : All (Answered s) s.looked_at

  Grown-Placed :
      (P : Bytes → Type 0) (depth k : ℕ) (u : Bytes) (s s' : Search)
      → Grown P depth s s'
      → Placed u k s
      → Placed u k s'
  Grown-Placed P depth k u s s' g v = ground (
    arith,
    g.seen_eq,
    g.looked_eq,
    g.waiting_eq,
    length-append {A = Bytes} s.seen (places g.more),
    placed-append u k s.looked_at s.waiting,
    placed-append u k s.looked_at (s.waiting ++ g.more),
    placed-append u k s.waiting g.more,
  )

  taken-Placed :
      (it : Item) (rest : List Item) (k : ℕ) (u : Bytes) (s : Search)
      → s.waiting ≡ it ∷ rest
      → Placed u k s
      → Placed u k (taken it rest s)
  taken-Placed it rest k u s e (inl full) = inl full
  taken-Placed it rest k u s e (inr at) =
      inr (ap (placed u k) (append_assoc s.looked_at (it ∷ []) rest) ∙ rw e at at)

  pub more-IsLinked :
      (d : ℕ) (xs : List Item)
      → All (λ x. x.depth ≡ d) xs
      → All (λ x. (d ≤ max_crawl_depth) × Linked d x.url) xs
      → All IsLinked xs
  more-IsLinked d [] h k = tt
  more-IsLinked d (x ∷ xs) h k =
      ((omega (arith, h.0, k.0.0), rw h.0 k.0.1), more-IsLinked d xs h.1 k.1)

  pub Put-Placed :
      (u : Bytes) (k : ℕ) (s : Search)
      → Listed s
      → All (λ it. it.depth ≤ k) (s.looked_at ++ s.waiting)
      → Put u s
      → Placed u k s
  Put-Placed u k s v near (inl full) = inl full
  Put-Placed u k s v near (inr at) =
      inr (placed_of-at_most u k (s.looked_at ++ s.waiting) near ∙ rw v.seen_eq at at)

  visit-Answered :
      (it : Item) (t : Search)
      → Listed (visit net it t)
      → All (λ x. x.depth ≤ it.depth + 1) ((visit net it t).looked_at ++ (visit net it t).waiting)
      → Answered (visit net it t) it
  visit-Answered it t v near r raw u shallow told m n =
      let named =
        add_all-Put (λ u. Unit) net.urls (offers r) raw u (it.depth + 1) t (λ raw u m e. tt) m n in
      Put-Placed u (it.depth + 1) (visit net it t) v near
        (rw (visit_near net it t r shallow told) named)

  visit-Kept :
      (it : Item) (rest : List Item) (s : Search)
      → s.waiting ≡ it ∷ rest
      → Kept s
      → Kept (visit net it (taken it rest s))
  visit-Kept it rest s e v =
      let t = taken it rest s in
      let s' = visit net it t in
      let P : Bytes → Type 0 = λ u. (it.depth + 1 ≤ max_crawl_depth) × Linked (it.depth + 1) u in
      let waits : All IsLinked (it ∷ rest) = rw e at v.linked_waiting in
      let g =
        visit-Grown P net it t
          (λ r raw u near told m n. (omega (arith, near), peer_named r raw u waits.0.1 told m n)) in
      let listed = Grown-Listed P (it.depth + 1) t s' g (taken-Listed it rest s e v.listed) in
      let kept : (k : ℕ) (u : Bytes) → Placed u k s → Placed u k s' =
        λ k u at. Grown-Placed P (it.depth + 1) k u t s' g (taken-Placed it rest k u s e at) in
      let levels = Grown-Levels P v.level it rest s s' e v.levels g in
      let all_answered : All (Answered s') (s.looked_at ++ (it ∷ [])) =
        All-append (Answered s') s.looked_at (it ∷ [])
          (All-mono s.looked_at
            (λ x h r raw u shallow told m n. kept _ u (h r raw u shallow told m n)) v.answered)
          (visit-Answered it t listed (Levels-near it.depth s' levels), tt) in
      record {
        listed = listed;
        linked_looked =
            rw g.looked_eq
              (All-append IsLinked s.looked_at (it ∷ []) v.linked_looked (waits.0, tt));
        linked_waiting = rw g.waiting_eq (
            All-append IsLinked rest g.more waits.1
              (more-IsLinked (it.depth + 1) g.more g.at_depth g.all_P));
        rooted = λ raw u m n. kept 0 u (v.rooted raw u m n);
        level = it.depth;
        levels = levels;
        answered = subst (All (Answered s')) (sym g.looked_eq) all_answered;
      }

  pub crawl_loop-Kept : (fuel : ℕ) (s : Search) → Kept s → Kept (crawl_loop fuel net s)
  unfolding crawl_loop
  crawl_loop-Kept zero s v = v
  crawl_loop-Kept (suc fuel) s v = elim (List-cases s.waiting) [
    | inl e ↦ simp (e, crawl_loop) v
    | inr (it, rest, e) ↦
        rw (e, crawl_loop)
          (crawl_loop-Kept fuel (visit net it (taken it rest s)) (visit-Kept it rest s e v))
  ]
