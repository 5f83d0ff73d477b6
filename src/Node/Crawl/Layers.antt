-- ===== src/Node/Crawl/Layers.antt =====
-- The order of the queue of `Crawl` in internal/p2p/crawl.go: the nearer relays come first.
use runeverything.Base.Members.{member}
use runeverything.Node.Crawl.Ends.{taken}
use runeverything.Node.Crawl.Found.{Grown, places}
use runeverything.Node.Crawl.{Search, Item}
use runeverything.Base.Bytes.{Bytes, bytes_eq}
use runeverything.Base.{
  ℕ, ◌+◌, ◌≤◌, ◌≡◌, refl, ◌⊎◌, inl, inr, Bool, true, false, ◌&&◌, ◌||◌, List, [], ◌∷◌, ◌++◌, arith,
  leb, All, All-mono, All-append,
}

-- Items of two depths at most, the smaller first.
pub Layered : ℕ → List Item → Type 0
Layered d [] = Unit
Layered d (it ∷ xs) = ((it.depth ≡ d) × Layered d xs) ⊎ All (λ x. x.depth ≡ d + 1) (it ∷ xs)

pub Layered-next : (d : ℕ) (xs : List Item) → All (λ x. x.depth ≡ d) xs → Layered d xs
unfolding Layered
Layered-next d [] h = tt
Layered-next d (x ∷ xs) h = inl (h.0, Layered-next d xs h.1)

All-both :
    (d : ℕ) (xs ys : List Item)
    → All (λ x. x.depth ≡ d + 1) xs
    → All (λ x. x.depth ≡ d + 1) ys
    → All (λ x. x.depth ≡ d + 1) (xs ++ ys)
All-both d [] ys h k = k
All-both d (x ∷ xs) ys h k = (h.0, All-both d xs ys h.1 k)

pub Layered-append :
    (d : ℕ) (xs ys : List Item)
    → Layered d xs
    → All (λ x. x.depth ≡ d + 1) ys
    → Layered d (xs ++ ys)
unfolding Layered
Layered-append d [] [] h k = tt
Layered-append d [] (y ∷ ys) h k = inr k
Layered-append d (x ∷ xs) ys (inl h) k = inl (h.0, Layered-append d xs ys h.1 k)
Layered-append d (x ∷ xs) ys (inr h) k = inr (h.0, All-both d xs ys h.1 k)

-- The item that is taken next is at the level, or at the next one with all the rest.
pub Layered-head :
    (d : ℕ) (it : Item) (rest : List Item)
    → Layered d (it ∷ rest)
    → (d ≤ it.depth) × (it.depth ≤ d + 1) × Layered it.depth rest
unfolding Layered
Layered-head d it rest (inl h) = (omega (arith, h.0), omega (arith, h.0), rw h.0 h.1)
Layered-head d it rest (inr h) =
    (omega (arith, h.0), omega (arith, h.0), rw h.0 (Layered-next (d + 1) rest h.1))

-- So all are at the level or the next.
pub Layered-at_most : (d : ℕ) (xs : List Item) → Layered d xs → All (λ x. x.depth ≤ d + 1) xs
unfolding Layered
Layered-at_most d [] h = tt
Layered-at_most d (x ∷ xs) (inl h) = (omega (arith, h.0), Layered-at_most d xs h.1)
Layered-at_most d (x ∷ xs) (inr h) = (omega (arith, h.0), All-mono xs (λ y e. omega (arith, e)) h.1)

-- The items that were looked at are at the level or before, and those that wait after it.
pub record Levels (d : ℕ) (s : Search) : Type 0 where
  pub layered : Layered d s.waiting
  pub below : All (λ x. x.depth ≤ d) s.looked_at

-- Looking at the next item makes its depth the level.
pub Grown-Levels :
    (P : Bytes → Type 0) (d : ℕ) (it : Item) (rest : List Item) (s s' : Search)
    → s.waiting ≡ it ∷ rest
    → Levels d s
    → Grown P (it.depth + 1) (taken it rest s) s'
    → Levels it.depth s'
Grown-Levels P d it rest s s' e v g =
    let (up, next, layered) = Layered-head d it rest (rw e at v.layered) in
    record {
      layered = rw g.waiting_eq (Layered-append it.depth rest g.more layered g.at_depth);
      below = rw g.looked_eq (
          All-append (λ x. x.depth ≤ it.depth) s.looked_at (it ∷ [])
            (All-mono s.looked_at (λ x h. omega (arith, h)) v.below) (omega arith, tt));
    }

pub Levels-near :
    (d : ℕ) (s : Search) → Levels d s → All (λ x. x.depth ≤ d + 1) (s.looked_at ++ s.waiting)
Levels-near d s v =
    All-append (λ x. x.depth ≤ d + 1) s.looked_at s.waiting
      (All-mono s.looked_at (λ x h. omega (arith, h)) v.below)
      (Layered-at_most d s.waiting v.layered)

-- A text stands in the list at that depth or a smaller one.
unfoldable pub placed : Bytes → ℕ → List Item → Bool
placed u k [] = false
placed u k (it ∷ xs) = (bytes_eq it.url u && leb it.depth k) || placed u k xs

pub placed-append :
    (u : Bytes) (k : ℕ) (xs ys : List Item)
    → placed u k (xs ++ ys) ≡ (placed u k xs || placed u k ys)
unfolding placed
placed-append u k [] ys = refl
placed-append u k (x ∷ xs) ys = ground (arith, placed-append u k xs ys)

pub placed_of-at_most :
    (u : Bytes) (k : ℕ) (xs : List Item)
    → All (λ x. x.depth ≤ k) xs
    → placed u k xs ≡ member u (places xs)
unfolding placed member
placed_of-at_most u k [] h = refl
placed_of-at_most u k (x ∷ xs) h = ground (arith, h.0, placed_of-at_most u k xs h.1)

pub placed-member :
    (u : Bytes) (k : ℕ) (xs : List Item) → placed u k xs ≡ true → member u (places xs) ≡ true
unfolding placed member
placed-member u k [] h = absurd (ground arith)
placed-member u k (x ∷ xs) h = ground (arith, placed-member u k xs)

pub placed_mono :
    (u : Bytes) (j k : ℕ) (xs : List Item) → j ≤ k → placed u j xs ≡ true → placed u k xs ≡ true
unfolding placed
placed_mono u j k [] le h = h
placed_mono u j k (x ∷ xs) le h = ground (arith, placed_mono u j k xs le)
