-- ===== src/Reudp/Endpoint/Handed.antt =====
-- Whether bytes were ever handed over, to whatever socket: `writeBytes` of internal/reudp/endpoint.go.
use mathlib.Core.Path.{subst}
use runeverything.Reudp.Endpoint.{
  Dest, punched, main_to, main_connected, Endpoint, hand_over, write_bytes, write_relay, write_addr,
  write_conn,
}
use runeverything.Reudp.Address.{Addr}
use runeverything.Base.Bytes.{Bytes, bytes_eq, bytes_eq_iff}
use runeverything.Base.{
  ℕ, suc, ◌≡◌, refl, inl, inr, Bool, true, false, ◌||◌, Option, none, some, List, [], ◌∷◌, ◌++◌,
  arith, Bool-cases, get_elem?, append_assoc, append-nil, sym,
}
use runeverything.Base.Float64.{Float64}

unfoldable pub handed : Bytes → List (Dest × Bytes) → Bool
handed b [] = false
handed b (x ∷ xs) = bytes_eq x.1 b || handed b xs

handed-append :
    (b : Bytes) (xs ys : List (Dest × Bytes)) → handed b (xs ++ ys) ≡ (handed b xs || handed b ys)
unfolding handed
handed-append b [] ys = refl
handed-append b (x ∷ xs) ys = ground (arith, handed-append b xs ys)

pub handed-get_elem? :
    (b : Bytes) (xs : List (Dest × Bytes))
    → handed b xs ≡ true
    → (i : ℕ) × (d : Dest) × (get_elem? xs i ≡ some (d, b))
unfolding handed
handed-get_elem? b [] h = absurd (ground arith)
handed-get_elem? b ((d, c) ∷ xs) h = elim (Bool-cases (bytes_eq c b)) [
  | inl here ↦ let same : c ≡ b = ground (arith, bytes_eq_iff c b) in (0, d, rw same refl)
  | inr later ↦ let (i, d', at) = handed-get_elem? b xs (ground arith) in (suc i, d', at)
]

-- What was handed over is followed by more, which has the bytes or has not.
pub record Adds (b : Bytes) (has : Bool) (old new : List (Dest × Bytes)) : Type 0 where
  pub extra : List (Dest × Bytes)
  pub new_eq : new ≡ old ++ extra
  pub has_eq : handed b extra ≡ has

pub Adds-then :
    (b : Bytes) (p q : Bool) (xs ys zs : List (Dest × Bytes))
    → Adds b p xs ys
    → Adds b q ys zs
    → Adds b (p || q) xs zs
Adds-then b p q xs ys zs u v = record {
  extra = u.extra ++ v.extra;
  new_eq = rw (v.new_eq, u.new_eq) (append_assoc xs u.extra v.extra);
  has_eq = rw (handed-append b u.extra v.extra, u.has_eq, v.has_eq) refl;
}

pub Adds-nothing : (b : Bytes) (xs : List (Dest × Bytes)) → Adds b false xs xs
unfolding handed
Adds-nothing b xs = record { extra = []; new_eq = sym (append-nil xs); has_eq = refl }

or_same : (p : Bool) → (p || p) ≡ p
or_same true = refl
or_same false = refl

module _ (b c : Bytes) where
  abbrev AddsTo : List (Dest × Bytes) → List (Dest × Bytes) → Type 0
  AddsTo xs ys = Adds b (bytes_eq c b) xs ys

  again : (xs ys zs : List (Dest × Bytes)) → AddsTo xs ys → AddsTo ys zs → AddsTo xs zs
  again xs ys zs u v =
      subst (λ h. Adds b h xs zs) (or_same (bytes_eq c b))
        (Adds-then b (bytes_eq c b) (bytes_eq c b) xs ys zs u v)

module _ {F : Type 0} ⦃fl : Float64 F⦄ (net : Dest → Bytes → Bool) (b c : Bytes) where
  hand_over-AddsTo : (d : Dest) (ep : Endpoint F) → AddsTo b c ep.sent (hand_over d c ep).sent
  unfolding hand_over handed
  hand_over-AddsTo d ep = record { extra = (d, c) ∷ []; new_eq = refl; has_eq = ground arith }

  write_relay-AddsTo :
      (a : Option Addr) (ep : Endpoint F) → AddsTo b c ep.sent (write_relay net c a ep).0.sent
  unfolding write_relay
  write_relay-AddsTo none ep = hand_over-AddsTo main_connected ep
  write_relay-AddsTo (some relay) ep = hand_over-AddsTo (main_to relay) ep

  write_addr-AddsTo :
      (prefer : Bool) (a : Option Addr) (ep : Endpoint F)
      → AddsTo b c ep.sent (write_addr net c prefer a ep).0.sent
  unfolding write_addr
  write_addr-AddsTo true (some addr) ep =
      let gone = hand_over-AddsTo (main_to addr) ep in
      let after = record (hand_over (main_to addr) c ep) { prefer_direct = false } in
      elim (Bool-cases (net (main_to addr) c)) [
        | inl took ↦ rw took gone
        | inr lost ↦
            rw lost (again b c ep.sent after.sent _ gone (write_relay-AddsTo ep.relay_addr after))
      ]
  write_addr-AddsTo true none ep = write_relay-AddsTo ep.relay_addr ep
  write_addr-AddsTo false a ep = write_relay-AddsTo ep.relay_addr ep

  write_conn-AddsTo :
      (prefer : Bool) (k : Option ℕ) (ep : Endpoint F)
      → AddsTo b c ep.sent (write_conn net c prefer k ep).0.sent
  unfolding write_conn
  write_conn-AddsTo true (some k) ep =
      let gone = hand_over-AddsTo (punched k) ep in
      let after = record (hand_over (punched k) c ep) { prefer_direct = false } in
      elim (Bool-cases (net (punched k) c)) [
        | inl took ↦ rw took gone
        | inr lost ↦
            rw lost
              (again b c ep.sent after.sent _ gone (write_addr-AddsTo true ep.direct_addr after))
      ]
  write_conn-AddsTo true none ep = write_addr-AddsTo true ep.direct_addr ep
  write_conn-AddsTo false k ep = write_addr-AddsTo false ep.direct_addr ep

  -- A write hands the bytes over at least once, and keeps what was handed over before.
  pub write_bytes-Adds :
      (ep : Endpoint F) → Adds b (bytes_eq c b) ep.sent (write_bytes net c ep).0.sent
  unfolding write_bytes
  write_bytes-Adds ep = write_conn-AddsTo ep.prefer_direct ep.direct_conn ep
