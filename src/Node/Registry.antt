-- ===== src/Node/Registry.antt =====
-- internal/directory/registry.go: the relays that announce themselves at a directory. The address is
-- normalized as in internal/p2p, by a function of its own with the same text.
use runeverything.Node.Url.{
  Urls, Url, UrlError, invalid_scheme, Checked, valid, invalid, normalize_relay_url, is_ws,
}
use runeverything.Base.Bytes.{Bytes, bytes_eq, bytes_eq_iff}
use runeverything.Base.Maps.{lookup, insert, lookup-insert, bytes_eq_instance}
use mathlib.Core.Path.{subst}
use runeverything.Base.Members.{IsIn, at_head, at_tail}
use runeverything.Base.{
  ℕ, ◌+◌, ◌*◌, ◌≤◌, ◌≡◌, Bool, not, ◌&&◌, Option, none, some, List, [], ◌∷◌, arith, ltb, ◌==◌,
  if◌then◌else◌, Bool-cases, inl, inr, refl, some-injective, false, sym, All,
}

pub record Entry : Type 0 where
  pub url : Bytes
  pub region : Bytes
  pub load : ℕ
  pub version : Bytes
  pub last_seen : ℕ

-- A load that is not positive is 0.
pub record AnnounceRequest : Type 0 where
  pub url : Bytes
  pub region : Bytes
  pub load : ℕ
  pub version : Bytes

pub record Registry : Type 0 where
  pub entries : List (Bytes × Entry)
  pub ttl : ℕ
  pub allow_ws : Bool

abbrev default_ttl : ℕ
default_ttl = 90 * 1000000000

unfoldable pub new_registry : ℕ → Bool → Registry
new_registry ttl allow_ws = record {
  entries = [];
  ttl = if ttl == 0 then default_ttl else ttl;
  allow_ws = allow_ws;
}

-- `panics` is a use of the `nil` that `url.Parse` gives with an error.
pub data Announced : Type 0 where
  announced : Entry → Announced
  rejected : UrlError → Announced
  panics : Announced

abbrev pub entry_of : Urls → ℕ → AnnounceRequest → Bytes → Entry
entry_of urls now req u = record {
  url = u;
  region = urls.trim_space req.region;
  load = req.load;
  version = urls.trim_space req.version;
  last_seen = now;
}

unfoldable pub announce_parsed :
    Urls → ℕ → AnnounceRequest → Bytes → Option Url → Registry → Registry × Announced
announce_parsed urls now req u none r = (r, panics)
announce_parsed urls now req u (some parsed) r =
    if is_ws parsed.scheme && not r.allow_ws then (r, rejected invalid_scheme) else (
      record r { entries = insert u (entry_of urls now req u) r.entries },
      announced (entry_of urls now req u),
    )

unfoldable pub announce_checked :
    Urls → ℕ → AnnounceRequest → Checked → Registry → Registry × Announced
unfolding announce_parsed
announce_checked urls now req (invalid e) r = (r, rejected e)
announce_checked urls now req (valid u) r = announce_parsed urls now req u (urls.parse u) r

unfoldable pub announce : Urls → ℕ → AnnounceRequest → Registry → Registry × Announced
unfolding announce_checked
announce urls now req r = announce_checked urls now req (normalize_relay_url urls req.url) r

unfoldable pub unexpired_entries : ℕ → ℕ → List (Bytes × Entry) → List (Bytes × Entry)
unexpired_entries now ttl [] = []
unexpired_entries now ttl ((k, e) ∷ m) =
    if ltb (e.last_seen + ttl) now
    then unexpired_entries now ttl m
    else (k, e) ∷ unexpired_entries now ttl m

abbrev entries_of : List (Bytes × Entry) → List Entry
entries_of [] = []
entries_of ((k, e) ∷ m) = e ∷ entries_of m

-- `List`, which expires first.
unfoldable pub list_relays : ℕ → Registry → Registry × List Entry
unfolding unexpired_entries
list_relays now r =
    let r' = record r { entries = unexpired_entries now r.ttl r.entries } in
    (r', entries_of r'.entries)

entries_of-IsIn :
    (now ttl : ℕ) (k : Bytes) (m : List (Bytes × Entry)) {e : Entry}
    → lookup k m ≡ some e
    → now ≤ e.last_seen + ttl
    → IsIn e (entries_of (unexpired_entries now ttl m))
unfolding lookup unexpired_entries
entries_of-IsIn now ttl k [] h f = absurd (cc)
entries_of-IsIn now ttl k ((j, d) ∷ m) {e} h f = elim (Bool-cases (bytes_eq j k)) [
  | inl at ↦
      let same : d ≡ e = some-injective (rw at at h) in
      let fresh : ltb (d.last_seen + ttl) now ≡ false = rw same (ground arith) in
      rw fresh (at_head (sym same))
  | inr off ↦
      let rest = entries_of-IsIn now ttl k m (rw off at h) f in
      elim (Bool-cases (ltb (d.last_seen + ttl) now)) [
        | inl stale ↦ rw stale rest
        | inr fresh ↦ rw fresh (at_tail rest)
      ]
]

-- What is listed was seen within the lifetime.
entries_of-alive :
    (now ttl : ℕ) (m : List (Bytes × Entry))
    → All (λ e. now ≤ e.last_seen + ttl) (entries_of (unexpired_entries now ttl m))
unfolding unexpired_entries
entries_of-alive now ttl [] = tt
entries_of-alive now ttl ((j, d) ∷ m) = elim (Bool-cases (ltb (d.last_seen + ttl) now)) [
  | inl stale ↦ rw stale (entries_of-alive now ttl m)
  | inr fresh ↦ rw fresh (ground arith, entries_of-alive now ttl m)
]

-- What an announcement does.
record Kept (now : ℕ) (e : Entry) (r r' : Registry) : Type 0 where
  pub now_eq : e.last_seen ≡ now
  pub ttl_eq : r'.ttl ≡ r.ttl
  pub there : lookup e.url r'.entries ≡ some e

announced-injective : (d e : Entry) → announced d ≡ announced e → d ≡ e
announced-injective d e h = cc

announce_parsed-Kept :
    (urls : Urls) (now : ℕ) (req : AnnounceRequest) (u : Bytes) (o : Option Url) (r : Registry)
    (e : Entry)
    → (announce_parsed urls now req u o r).1 ≡ announced e
    → Kept now e r (announce_parsed urls now req u o r).0
unfolding announce_parsed
announce_parsed-Kept urls now req u none r e = λ h. absurd (cc)
announce_parsed-Kept urls now req u (some parsed) r e =
    elim (Bool-cases (is_ws parsed.scheme && not r.allow_ws)) [
      | inl plain ↦ rw plain (λ h. absurd (cc))
      | inr allowed ↦ rw allowed (λ h.
          let ent = entry_of urls now req u in
          let r' = record r { entries = insert u ent r.entries } in
          let there : lookup u r'.entries ≡ some ent =
            ground (arith, lookup-insert u u ent r.entries, bytes_eq_iff u u) in
          subst (λ d. Kept now d r r') (announced-injective ent e h)
            (record { now_eq = refl; ttl_eq = refl; there = there }))
    ]

announce_checked-Kept :
    (urls : Urls) (now : ℕ) (req : AnnounceRequest) (c : Checked) (r : Registry) (e : Entry)
    → (announce_checked urls now req c r).1 ≡ announced e
    → Kept now e r (announce_checked urls now req c r).0
unfolding announce_checked
announce_checked-Kept urls now req (invalid x) r e h = absurd (cc)
announce_checked-Kept urls now req (valid u) r e h =
    announce_parsed-Kept urls now req u (urls.parse u) r e h

-- A relay that was announced with success is in the list that is given out, as it was answered,
-- until its lifetime is over; and what the list has was announced within the lifetime.
pub list_relays-announce :
    (urls : Urls) (now later : ℕ) (req : AnnounceRequest) (r : Registry) (e : Entry)
    → (announce urls now req r).1 ≡ announced e
    → later ≤ now + r.ttl
    → IsIn e (list_relays later (announce urls now req r).0).1
      × All (λ d. later ≤ d.last_seen + r.ttl) (list_relays later (announce urls now req r).0).1
unfolding announce list_relays
list_relays-announce urls now later req r e h alive =
    let k = announce_checked-Kept urls now req (normalize_relay_url urls req.url) r e h in
    let r' = (announce urls now req r).0 in
    (
      entries_of-IsIn later r'.ttl e.url r'.entries k.there (omega (arith, k.now_eq, k.ttl_eq)),
      subst
          (λ t.
            All (λ d. later ≤ d.last_seen + t)
              (entries_of (unexpired_entries later r'.ttl r'.entries)))
          k.ttl_eq (entries_of-alive later r'.ttl r'.entries),
    )
