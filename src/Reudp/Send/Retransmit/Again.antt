-- ===== src/Reudp/Send/Retransmit/Again.antt =====
-- A tick of internal/reudp/endpoint.go that comes late enough sends a packet in flight again.
use mathlib.Core.Path.{subst}
use runeverything.Reudp.Endpoint.Handed.{Adds, Adds-then, Adds-nothing, write_bytes-Adds}
use runeverything.Reudp.Send.Retransmit.{sweep_lem, due}
use runeverything.Reudp.Send.Retransmit.Repeated.{tick_open}
use runeverything.Reudp.Send.{resend, Sweep, is_due, write_all, retransmit_tick, sweep}
use runeverything.Reudp.Endpoint.{InflightPkt, Dest, Endpoint, write_bytes}
use runeverything.Base.Bytes.{Bytes, bytes_eq, bytes_eq_iff}
use runeverything.Base.Float64.{Float64}
use runeverything.Base.{
  ℕ, ◌≡◌, inl, inr, Bool, true, false, ◌||◌, some, List, [], ◌∷◌, arith, ◌==◌, Bool-cases,
  some-injective,
}
use runeverything.Base.Maps.{lookup, nat_eq}

unfoldable among : Bytes → List Bytes → Bool
among b [] = false
among b (c ∷ cs) = bytes_eq c b || among b cs

due-among :
    (now s : ℕ) (inf : InflightPkt) (xs : List (ℕ × InflightPkt))
    → lookup s xs ≡ some inf
    → is_due now inf ≡ true
    → among inf.bytes (due now xs) ≡ true
unfolding due among lookup
due-among now s inf [] e h = absurd (cc)
due-among now s inf ((j, i) ∷ xs) e h = elim (Bool-cases (j == s)) [
  | inl at ↦
      let same : i ≡ inf = some-injective (rw at at e) in
      let late : is_due now i ≡ true = rw same h in
      rw (late, same) (ground (arith, bytes_eq_iff inf.bytes inf.bytes))
  | inr off ↦
      let rest = due-among now s inf xs (rw off at e) h in
      elim (Bool-cases (is_due now i)) [
        | inl late ↦ rw late (ground (arith, rest))
        | inr soon ↦ rw soon rest
      ]
]

module _ {F : Type 0} ⦃fl : Float64 F⦄ (net : Dest → Bytes → Bool) where
  write_all-Adds :
      (b : Bytes) (bs : List Bytes) (ep : Endpoint F)
      → Adds b (among b bs) ep.sent (write_all net bs ep).sent
  unfolding write_all among
  write_all-Adds b [] ep = Adds-nothing b ep.sent
  write_all-Adds b (c ∷ bs) ep =
      Adds-then b (bytes_eq c b) (among b bs) ep.sent _ _ (write_bytes-Adds net b c ep)
        (write_all-Adds b bs (write_bytes net c ep).0)

  resend-Adds :
      (b : Bytes) (s : Sweep) (ep : Endpoint F)
      → Adds b (among b s.to_send) ep.sent (resend net s ep).sent
  unfolding resend
  resend-Adds b s ep =
      let out = write_all-Adds b s.to_send (record ep { inflight = s.kept }) in
      elim (Bool-cases s.lost) [ inl l ↦ rw l out | inr l ↦ rw l out ]

  -- What a tick hands over, behind what was handed over before, has the packet.
  pub retransmit_tick-Adds :
      (now s : ℕ) (inf : InflightPkt) (ep : Endpoint F)
      → ep.closed ≡ false
      → lookup s ep.inflight ≡ some inf
      → is_due now inf ≡ true
      → Adds inf.bytes true ep.sent (retransmit_tick net now ep).sent
  retransmit_tick-Adds now s inf ep open_ e h =
      let start : Sweep = record { kept = []; to_send = []; lost = false } in
      let swept = sweep now start ep.inflight in
      let (kept, out) = sweep_lem now start ep.inflight in
      let there : among inf.bytes swept.to_send ≡ true =
        rw out (due-among now s inf ep.inflight e h) in
      rw (tick_open net now ep open_) (
        subst (λ p. Adds inf.bytes p ep.sent (resend net swept ep).sent) there
          (resend-Adds inf.bytes swept ep))
