-- ===== src/Node/Load.antt =====
-- internal/p2p/select_load.go: the relays with the best latency and load. `ProbeRelay` and
-- `ProbeCapacity` are measurements: what they answer is an argument. A score is a float64.
pub mod Top
use runeverything.Base.Members.{member}
use runeverything.Node.Url.{Urls, Checked, valid, invalid, normalize_relay_url}
use runeverything.Base.Bytes.{Bytes, bytes_eq}
use runeverything.Base.Float64.{Float64}
use runeverything.Base.{
  ℕ, ◌+◌, ◌-◌, ◌/◌, ◌^◌, min, Bool, false, not, ◌&&◌, ◌||◌, Option, none, some, List, [], ◌∷◌, ◌++◌,
  ltb, leb, ◌==◌, if◌then◌else◌, length,
}

pub record ScoredRelay (F : Type 0) : Type 0 where
  pub url : Bytes
  pub rtt : ℕ
  pub busy : ℕ
  pub score : F

-- A candidate, and its round trip and load if the probe succeeds.
pub record Candidate : Type 0 where
  pub url : Bytes
  pub probe : Option (ℕ × ℕ)

pub data Best (F : Type 0) : Type 0 where
  best_of : Bytes → List (ScoredRelay F) → Best F
  none_given : Best F
  none_healthy : List (ScoredRelay F) → Best F

module _ {F : Type 0} ⦃fl : Float64 F⦄ where
  -- A load that is not positive is 0.
  unfoldable pub score_relay : ℕ → ℕ → F
  score_relay rtt busy =
      let ms = fl.of_int (rtt / 1000000) in
      let ms' = if fl.lt ms (fl.of_int 1) then fl.of_int 1 else ms in
      fl.add ms' (fl.mul (fl.of_int (min busy 100)) (fl.div (fl.of_int 5) (fl.of_int 2)))

  scored_probe : Bytes → Option (ℕ × ℕ) → ScoredRelay F
  scored_probe u none = record { url = u; rtt = 0; busy = 0; score = fl.of_int (10 ^ 12) }
  scored_probe u (some (rtt, busy)) = record {
    url = u;
    rtt = rtt;
    busy = busy;
    score = score_relay rtt busy;
  }

  unfoldable pub scored : List Candidate → List (ScoredRelay F)
  unfolding scored_probe
  scored [] = []
  scored (c ∷ cs) = scored_probe c.url c.probe ∷ scored cs

  abbrev pub is_healthy : ScoredRelay F → Bool
  is_healthy s = fl.lt s.score (fl.of_int (10 ^ 11))

  unfoldable pub healthy_of : List (ScoredRelay F) → List (ScoredRelay F)
  healthy_of [] = []
  healthy_of (s ∷ ss) = if is_healthy s then s ∷ healthy_of ss else healthy_of ss

  -- `sort.SliceStable` by the score.
  unfoldable pub put_scored : ScoredRelay F → List (ScoredRelay F) → List (ScoredRelay F)
  put_scored s [] = s ∷ []
  put_scored s (x ∷ xs) = if fl.lt x.score s.score then x ∷ put_scored s xs else s ∷ x ∷ xs

  unfoldable pub sort_scored : List (ScoredRelay F) → List (ScoredRelay F)
  sort_scored [] = []
  sort_scored (s ∷ ss) = put_scored s (sort_scored ss)

  -- `s.URL == nu && s.Score <= best.Score*1.8`
  unfoldable pub near_score : Bytes → ScoredRelay F → List (ScoredRelay F) → Bool
  near_score u best [] = false
  near_score u best (s ∷ ss) =
      (bytes_eq s.url u
        && not (fl.lt (fl.mul best.score (fl.div (fl.of_int 18) (fl.of_int 10))) s.score))
      || near_score u best ss

  sticky_or_best : Checked → ScoredRelay F → List (ScoredRelay F) → Bytes
  unfolding near_score
  sticky_or_best (invalid e) best ss = best.url
  sticky_or_best (valid u) best ss = if near_score u best ss then u else best.url

  choose_best : Urls → Bytes → List (ScoredRelay F) → List (ScoredRelay F) → Best F
  unfolding sticky_or_best
  choose_best urls sticky all [] = none_healthy all
  choose_best urls sticky all (best ∷ ss) =
      best_of
        (if length sticky == 0
          then best.url
          else sticky_or_best (normalize_relay_url urls sticky) best (best ∷ ss))
        all

  unfoldable pub select_best_latency_and_load : Urls → Bytes → List Candidate → Best F
  unfolding choose_best sort_scored healthy_of scored
  select_best_latency_and_load urls sticky candidates =
      if length candidates == 0
      then none_given
      else choose_best urls (urls.trim_space sticky) (scored candidates)
          (sort_scored (healthy_of (scored candidates)))

  -- The loop of `DiscoverTop`, with what is given out already; `seen` holds just that.
  unfoldable pub fill_top : ℕ → List (ScoredRelay F) → List Bytes → List Bytes
  fill_top n [] out = out
  fill_top n (s ∷ ss) out =
      if leb n (length out)
      then out
      else fill_top n ss (if member s.url out then out else out ++ (s.url ∷ []))

  -- `DiscoverTop` after a selection that succeeds.
  unfoldable pub top_relays : ℕ → Bytes → List (ScoredRelay F) → List Bytes
  unfolding fill_top
  top_relays n best all =
      fill_top (if n == 0 then 1 else n) (sort_scored (healthy_of all))
        (if length best == 0 then [] else best ∷ [])
