-- ===== src/Node/Select.antt =====
-- `SelectLowestPing` of internal/p2p/crawl.go and `dedupeRelays` of internal/p2p/resolve.go. Times are
-- in nanoseconds; `ProbeRelay` is a measurement: what it answers is an argument.
pub mod Lowest
pub mod Dedupe
use runeverything.Base.Members.{member}
use runeverything.Node.Url.{Urls, Checked, valid, invalid, normalize_relay_url}
use runeverything.Base.Bytes.{Bytes, bytes_eq}
use runeverything.Base.{
  ℕ, ◌+◌, ◌*◌, Bool, false, not, ◌&&◌, ◌||◌, Option, none, some, List, [], ◌∷◌, ◌++◌, ltb, leb,
  ◌==◌, if◌then◌else◌, length,
}

-- The address of a candidate and its round trip, or `none` if the probe failed.
pub record ProbeResult : Type 0 where
  pub url : Bytes
  pub rtt : Option ℕ

-- A candidate that answered.
pub record Healthy : Type 0 where
  pub url : Bytes
  pub rtt : ℕ

pub data Selection : Type 0 where
  selected : Bytes → Selection
  no_candidates no_healthy : Selection

unfoldable pub healthy : List ProbeResult → List Healthy
healthy [] = []
healthy (r ∷ rs) =
    let rest = healthy rs in
    elim r.rtt [ none ↦ rest | some t ↦ record { url = r.url; rtt = t } ∷ rest ]

-- `sort.SliceStable` by the round trip.
unfoldable pub put_sorted : Healthy → List Healthy → List Healthy
put_sorted h [] = h ∷ []
put_sorted h (x ∷ xs) = if leb h.rtt x.rtt then h ∷ x ∷ xs else x ∷ put_sorted h xs

unfoldable pub sort_stable : List Healthy → List Healthy
sort_stable [] = []
sort_stable (h ∷ hs) = put_sorted h (sort_stable hs)

-- `best.RTT*2 + 50*time.Millisecond`
abbrev pub near_best : Healthy → ℕ
near_best best = best.rtt * 2 + 50000000

unfoldable pub has_near : Bytes → ℕ → List Healthy → Bool
has_near u limit [] = false
has_near u limit (h ∷ hs) = (bytes_eq h.url u && leb h.rtt limit) || has_near u limit hs

unfoldable pub keep_sticky : Checked → Healthy → List Healthy → Bytes
keep_sticky (invalid e) best hs = best.url
keep_sticky (valid u) best hs = if has_near u (near_best best) hs then u else best.url

unfoldable pub pick : Urls → Bytes → List Healthy → Selection
unfolding keep_sticky
pick urls sticky [] = no_healthy
pick urls sticky (best ∷ hs) = selected (
    if length sticky == 0
    then best.url
    else keep_sticky (normalize_relay_url urls sticky) best (best ∷ hs))

unfoldable pub select_lowest_ping : Urls → Bytes → List ProbeResult → Selection
unfolding pick
select_lowest_ping urls sticky results =
    if length results == 0
    then no_candidates
    else pick urls (urls.trim_space sticky) (sort_stable (healthy results))

-- The relays that are in already, and those that come after them.
pub record Deduped : Type 0 where
  pub seen : List Bytes
  pub out : List Bytes

unfoldable pub add_relay : Urls → Bytes → Deduped → Deduped
add_relay urls raw s =
    let u = urls.trim_space raw in
    if length u == 0 || member u s.seen
    then s
    else record { seen = s.seen ++ (u ∷ []); out = s.out ++ (u ∷ []) }

unfoldable pub add_relays : Urls → List Bytes → Deduped → Deduped
add_relays urls [] s = s
add_relays urls (u ∷ us) s = add_relays urls us (add_relay urls u s)

unfoldable pub dedupe_relays : Urls → List Bytes → Bytes → Bytes → List Bytes
unfolding add_relay add_relays
dedupe_relays urls extra manual primary =
    let start : Deduped = record {
      seen = if length primary == 0 then [] else primary ∷ [];
      out = [];
    } in
    (add_relays urls extra (add_relay urls manual start)).out
