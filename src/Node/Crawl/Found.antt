-- ===== src/Node/Crawl/Found.antt =====
-- What adding to the search of internal/p2p/crawl.go does.
use runeverything.Base.Members.{Distinct, Distinct-last, member, member-append}
use runeverything.Node.Crawl.{Item, Search, add_checked, add, add_all, max_crawl_peers}
use runeverything.Node.Url.{Urls, Checked, valid, invalid, normalize_relay_url}
use runeverything.Base.Bytes.{Bytes, bytes_eq, bytes_eq_iff}
use runeverything.Base.{
  ℕ, ◌≤◌, ◌≡◌, refl, sym, ap, ◌∙◌, ◌⊎◌, inl, inr, true, ◌||◌, List, [], ◌∷◌, ◌++◌, append-nil,
  append_assoc, arith, leb, Bool-cases, length, All, All-append, length-append,
}

abbrev pub places : List Item → List Bytes
places [] = []
places (it ∷ xs) = it.url ∷ places xs

pub places-append : (xs ys : List Item) → places (xs ++ ys) ≡ places xs ++ places ys
places-append [] ys = refl
places-append (x ∷ xs) ys = ap (◌∷◌ x.url) (places-append xs ys)

-- New items are at the end, at one depth, and satisfy `P`.
pub record Grown (P : Bytes → Type 0) (depth : ℕ) (s s' : Search) : Type 0 where
  pub more : List Item
  pub looked_eq : s'.looked_at ≡ s.looked_at
  pub waiting_eq : s'.waiting ≡ s.waiting ++ more
  pub seen_eq : s'.seen ≡ s.seen ++ places more
  pub at_depth : All (λ it. it.depth ≡ depth) more
  pub all_P : All (λ it. P it.url) more
  pub fits : length s.seen ≤ max_crawl_peers → length s'.seen ≤ max_crawl_peers
  pub distinct : Distinct s.seen → Distinct s'.seen

pub Grown-refl : (P : Bytes → Type 0) (depth : ℕ) (s : Search) → Grown P depth s s
Grown-refl P depth s = record {
  more = [];
  looked_eq = refl;
  waiting_eq = sym (append-nil s.waiting);
  seen_eq = sym (append-nil s.seen);
  at_depth = tt;
  all_P = tt;
  fits = λ h. h;
  distinct = λ d. d;
}

Grown-trans :
    (P : Bytes → Type 0) (depth : ℕ) (a b c : Search)
    → Grown P depth a b
    → Grown P depth b c
    → Grown P depth a c
Grown-trans P depth a b c g h = record {
  more = g.more ++ h.more;
  looked_eq = h.looked_eq ∙ g.looked_eq;
  waiting_eq =
      h.waiting_eq ∙ ap (λ w. w ++ h.more) g.waiting_eq ∙ append_assoc a.waiting g.more h.more;
  seen_eq =
      h.seen_eq
      ∙ ap (λ w. w ++ places h.more) g.seen_eq
      ∙ append_assoc a.seen (places g.more) (places h.more)
      ∙ ap (λ w. a.seen ++ w) (sym (places-append g.more h.more));
  at_depth = All-append _ g.more h.more g.at_depth h.at_depth;
  all_P = All-append _ g.more h.more g.all_P h.all_P;
  fits = λ e. h.fits (g.fits e);
  distinct = λ d. h.distinct (g.distinct d);
}

-- The search is full, or the text is in it.
abbrev pub Put : Bytes → Search → Type 0
Put u s = (max_crawl_peers ≤ length s.seen) ⊎ (member u s.seen ≡ true)

module _ (P : Bytes → Type 0) (urls : Urls) where
  -- A text is put in, unless it is there already or the search is full.
  pub add_checked-Grown :
      (c : Checked) (depth : ℕ) (s : Search)
      → ((u : Bytes) → c ≡ valid u → P u)
      → Grown P depth s (add_checked c depth s)
  unfolding add_checked
  add_checked-Grown (invalid e) depth s p = Grown-refl P depth s
  add_checked-Grown (valid u) depth s p =
      elim (Bool-cases (member u s.seen || leb max_crawl_peers (length s.seen))) [
        | inl stays ↦ rw stays (Grown-refl P depth s)
        | inr comes ↦ rw comes (record {
          more = record { url = u; depth = depth } ∷ [];
          looked_eq = refl;
          waiting_eq = refl;
          seen_eq = refl;
          at_depth = (refl, tt);
          all_P = (p u refl, tt);
          fits = λ h. ground (arith, length-append {A = Bytes} s.seen (u ∷ []));
          distinct = λ d. Distinct-last u s.seen (ground arith) d;
        })
      ]

  -- Afterwards it is there, or the search is full.
  add_checked-there :
      (u : Bytes) (depth : ℕ) (s : Search)
      → (max_crawl_peers ≤ length (add_checked (valid u) depth s).seen)
        ⊎ (member u (add_checked (valid u) depth s).seen ≡ true)
  unfolding add_checked member
  add_checked-there u depth s = ground (arith, member-append u s.seen (u ∷ []), bytes_eq_iff u u)

  pub add-Grown :
      (raw : Bytes) (depth : ℕ) (s : Search)
      → ((u : Bytes) → normalize_relay_url urls raw ≡ valid u → P u)
      → Grown P depth s (add urls raw depth s)
  unfolding add
  add-Grown raw depth s p = add_checked-Grown (normalize_relay_url urls raw) depth s p

  pub add_all-Grown :
      (raws : List Bytes) (depth : ℕ) (s : Search)
      → ((raw u : Bytes) → member raw raws ≡ true → normalize_relay_url urls raw ≡ valid u → P u)
      → Grown P depth s (add_all urls raws depth s)
  unfolding add_all member
  add_all-Grown [] depth s p = Grown-refl P depth s
  add_all-Grown (raw ∷ raws) depth s p =
      let one = add-Grown raw depth s (λ u e. p raw u (ground (arith, bytes_eq_iff raw raw)) e) in
      Grown-trans P depth s _ _ one (
        add_all-Grown raws depth (add urls raw depth s)
          (λ raw' u m e. p raw' u (ground (arith, m)) e))

  Grown-Put : (u : Bytes) (depth : ℕ) (s s' : Search) → Grown P depth s s' → Put u s → Put u s'
  Grown-Put u depth s s' g v = ground (
    arith,
    g.seen_eq,
    length-append {A = Bytes} s.seen (places g.more),
    member-append u s.seen (places g.more),
  )

  add-Put :
      (raw u : Bytes) (depth : ℕ) (s : Search)
      → normalize_relay_url urls raw ≡ valid u
      → Put u (add urls raw depth s)
  unfolding add
  add-Put raw u depth s e = rw e (add_checked-there u depth s)

  pub add_all-Put :
      (raws : List Bytes) (raw u : Bytes) (depth : ℕ) (s : Search)
      → ((raw u : Bytes) → member raw raws ≡ true → normalize_relay_url urls raw ≡ valid u → P u)
      → member raw raws ≡ true
      → normalize_relay_url urls raw ≡ valid u
      → Put u (add_all urls raws depth s)
  unfolding add_all member
  add_all-Put [] raw u depth s p m e = absurd (ground arith)
  add_all-Put (x ∷ raws) raw u depth s p m e =
      let q : (raw' u' : Bytes)
          → member raw' raws ≡ true
          → normalize_relay_url urls raw' ≡ valid u'
          → P u' =
        λ raw' u' m' e'. p raw' u' (ground (arith, m')) e' in
      elim (Bool-cases (bytes_eq x raw)) [
        | inl same ↦
            let here : x ≡ raw = ground (arith, bytes_eq_iff x raw) in
            Grown-Put u depth _ _ (add_all-Grown raws depth (add urls x depth s) q)
              (add-Put x u depth s (rw here e))
        | inr other ↦ add_all-Put raws raw u depth (add urls x depth s) q (ground arith) e
      ]
