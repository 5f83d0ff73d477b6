-- ===== src/Reudp/Send/Retransmit.antt =====
-- The retransmission loop of internal/reudp/endpoint.go gives nothing up.
pub mod Repeated
pub mod Again
use runeverything.Reudp.Address.{Addr}
use runeverything.Reudp.Endpoint.Frame.{Same, Same-refl, Same-trans, write_bytes-Same}
use runeverything.Reudp.Send.{resend, Sweep, is_due, write_all, retransmit_tick, sweep_one, sweep}
use runeverything.Reudp.Endpoint.{main_to, hand_over, InflightPkt, Dest, Endpoint, write_bytes}
use runeverything.Base.Bytes.{Bytes}
use runeverything.Base.Float64.{Float64}
use runeverything.Base.{
  ℕ, ◌+◌, ◌≡◌, refl, sym, ap, ◌∙◌, inl, inr, Bool, false, some, List, [], ◌∷◌, ◌++◌, append-nil,
  append_assoc, arith, if◌then◌else◌, Bool-cases,
}
use mathlib.Core.Option
use mathlib.Core.List.{map}
use runeverything.Base.Maps.{lookup, nat_eq}

-- What the pass keeps, and what it sends, by their specification.
pub resent : ℕ → InflightPkt → InflightPkt
resent now inf =
    if is_due now inf then record inf { sent_at = now; retries = inf.retries + 1 } else inf

pub keep_all : ℕ → List (ℕ × InflightPkt) → List (ℕ × InflightPkt)
keep_all now [] = []
keep_all now ((seq, inf) ∷ xs) = (seq, resent now inf) ∷ keep_all now xs

-- The datagrams of the packets that have waited too long, in the order of the pass.
pub due : ℕ → List (ℕ × InflightPkt) → List Bytes
due now [] = []
due now ((seq, inf) ∷ xs) = if is_due now inf then inf.bytes ∷ due now xs else due now xs

pub sweep_lem :
    (now : ℕ) (s : Sweep) (xs : List (ℕ × InflightPkt))
    → ((sweep now s xs).kept ≡ s.kept ++ keep_all now xs)
      × ((sweep now s xs).to_send ≡ s.to_send ++ due now xs)
unfolding sweep sweep_one keep_all due resent
sweep_lem now s [] = (sym (append-nil s.kept), sym (append-nil s.to_send))
sweep_lem now s ((seq, inf) ∷ xs) = ground (
  arith,
  sweep_lem now (sweep_one now s (seq, inf)) xs,
  append_assoc s.kept ((seq, resent now inf) ∷ []) (keep_all now xs),
  append_assoc s.to_send (inf.bytes ∷ []) (due now xs),
)

pub lookup-keep_all :
    (now seq : ℕ) (xs : List (ℕ × InflightPkt))
    → lookup seq (keep_all now xs) ≡ Option.map (resent now) (lookup seq xs)
unfolding keep_all lookup
lookup-keep_all now seq [] = refl
lookup-keep_all now seq ((j, inf) ∷ xs) = ground (arith, lookup-keep_all now seq xs)

-- All datagrams that were handed over on the main socket to the relay.
module _ {F : Type 0} ⦃fl : Float64 F⦄ where
  pub write_all-Same :
      (net : Dest → Bytes → Bool) (bs : List Bytes) (ep : Endpoint F)
      → Same ep (write_all net bs ep)
  unfolding write_all
  write_all-Same net [] ep = Same-refl ep
  write_all-Same net (b ∷ bs) ep =
      Same-trans (write_bytes-Same net b ep) (write_all-Same net bs (write_bytes net b ep).0)

  -- On the relayed path each datagram goes to the relay, one after the other.
  write_bytes_relayed :
      (net : Dest → Bytes → Bool) (b : Bytes) (ep : Endpoint F) (relay : Addr)
      → ep.prefer_direct ≡ false
      → ep.relay_addr ≡ some relay
      → ((write_bytes net b ep).0.sent ≡ ep.sent ++ ((main_to relay, b) ∷ []))
        × ((write_bytes net b ep).0.prefer_direct ≡ false)
        × ((write_bytes net b ep).0.relay_addr ≡ some relay)
  unfolding write_bytes hand_over
  write_bytes_relayed net b ep relay hp hr = ground arith

  write_all_relayed :
      (net : Dest → Bytes → Bool) (bs : List Bytes) (ep : Endpoint F) (relay : Addr)
      → ep.prefer_direct ≡ false
      → ep.relay_addr ≡ some relay
      → (write_all net bs ep).sent ≡ ep.sent ++ map (λ b. (main_to relay, b)) bs
  unfolding write_all
  write_all_relayed net [] ep relay hp hr = sym (append-nil ep.sent)
  write_all_relayed net (b ∷ bs) ep relay hp hr =
      let (one, hp', hr') = write_bytes_relayed net b ep relay hp hr in
      write_all_relayed net bs (write_bytes net b ep).0 relay hp' hr'
      ∙ rw one (append_assoc ep.sent ((main_to relay, b) ∷ []) (map (λ c. (main_to relay, c)) bs))

  resend_relayed :
      (net : Dest → Bytes → Bool) (s : Sweep) (ep : Endpoint F) (relay : Addr)
      → ep.prefer_direct ≡ false
      → ep.relay_addr ≡ some relay
      → ((resend net s ep).inflight ≡ s.kept)
        × ((resend net s ep).sent ≡ ep.sent ++ map (λ b. (main_to relay, b)) s.to_send)
  unfolding resend
  resend_relayed net s ep relay hp hr =
      let mid = record ep { inflight = s.kept } in
      let same = write_all-Same net s.to_send mid in
      let handed = write_all_relayed net s.to_send mid relay hp hr in
      elim (Bool-cases s.lost) [
        | inl l ↦ rw l (same.inflight_eq, handed)
        | inr l ↦ rw l (same.inflight_eq, handed)
      ]

  -- A tick of an open endpoint that goes through the relay keeps every packet in flight, with the
  -- same bytes under the same number, however often it was sent before; a packet that has waited
  -- too long has its time set anew and one more retry counted. It hands over to the relay the
  -- datagrams of exactly the packets that have waited too long.
  pub retransmit_tick_lem :
      (net : Dest → Bytes → Bool) (now seq : ℕ) (ep : Endpoint F) (relay : Addr)
      → ep.closed ≡ false
      → ep.prefer_direct ≡ false
      → ep.relay_addr ≡ some relay
      → (lookup seq (retransmit_tick net now ep).inflight
          ≡ Option.map (resent now) (lookup seq ep.inflight))
        × ((retransmit_tick net now ep).sent
            ≡ ep.sent ++ map (λ b. (main_to relay, b)) (due now ep.inflight))
  unfolding retransmit_tick
  retransmit_tick_lem net now seq ep relay hc hp hr =
      let start : Sweep = record { kept = []; to_send = []; lost = false } in
      let (kept, out) = sweep_lem now start ep.inflight in
      let (flight, handed) = resend_relayed net (sweep now start ep.inflight) ep relay hp hr in
      let open_ : retransmit_tick net now ep ≡ resend net (sweep now start ep.inflight) ep =
        rw hc in
      rw open_
        (ap (lookup seq) (flight ∙ kept) ∙ lookup-keep_all now seq ep.inflight, handed ∙ rw out)
