-- ===== src/Reudp/Receive/Freed.antt =====
-- What an acknowledgement takes out of flight: `handleAck` of internal/reudp/endpoint.go.
use runeverything.Reudp.Receive.Ack.{KeysU32, acked_by-ack_sack}
use runeverything.Base.Float64.{Float64}
use runeverything.Reudp.Endpoint.{Endpoint, InflightPkt}
use runeverything.Reudp.Receive.{
  ack_one, delta, handle_ack, ack_cum, ack_sack, ack_loop, acked_by, AckLoop,
}
use runeverything.Base.{
  ℕ, ◌-◌, ◌^◌, ◌<◌, ◌≡◌, sym, ap, ◌∙◌, ◌&&◌, ◌||◌, none, List, [], ◌∷◌, ◌++◌, append-nil,
  append_assoc, arith, ltb, if◌then◌else◌, is_some, All, Bool-cases, inl, inr,
}
use runeverything.Base.Maps.{lookup, nat_eq}

-- The packets that stay are the old ones that are not acknowledged, in their order.
unacked : ℕ → ℕ → List (ℕ × InflightPkt) → List (ℕ × InflightPkt)
unacked cum sack [] = []
unacked cum sack ((seq, inf) ∷ xs) =
    if acked_by cum sack seq then unacked cum sack xs else (seq, inf) ∷ unacked cum sack xs

ack_loop-left :
    (now cum sack : ℕ) (s : AckLoop) (xs : List (ℕ × InflightPkt))
    → (ack_loop now cum sack s xs).left ≡ s.left ++ unacked cum sack xs
unfolding ack_loop ack_one unacked
ack_loop-left now cum sack s [] = sym (append-nil s.left)
ack_loop-left now cum sack s ((seq, inf) ∷ xs) =
    let s' = ack_one now cum sack s (seq, inf) in
    ground (
      arith,
      ack_loop-left now cum sack s' xs,
      append_assoc s.left ((seq, inf) ∷ []) (unacked cum sack xs),
    )

lookup-unacked :
    (cum sack seq : ℕ) (xs : List (ℕ × InflightPkt))
    → lookup seq (unacked cum sack xs) ≡ (if acked_by cum sack seq then none else lookup seq xs)
unfolding lookup unacked
lookup-unacked cum sack seq [] = ground arith
lookup-unacked cum sack seq ((j, inf) ∷ xs) = ground (arith, lookup-unacked cum sack seq xs)

All-unacked :
    (P : ℕ × InflightPkt → Type 0) (cum sack : ℕ) (xs : List (ℕ × InflightPkt))
    → All P xs
    → All P (unacked cum sack xs)
unfolding unacked
All-unacked P cum sack [] h = h
All-unacked P cum sack ((j, inf) ∷ xs) (p, h) = elim (Bool-cases (acked_by cum sack j)) [
  | inl told ↦ rw told (All-unacked P cum sack xs h)
  | inr kept ↦ rw kept (p, All-unacked P cum sack xs h)
]

module _ {F : Type 0} ⦃fl : Float64 F⦄ where
  -- The sender, when it has read the acknowledgement that the receiver sends.
  abbrev pub answered : ℕ → Endpoint F → Endpoint F → Endpoint F
  answered now receiver sender =
      handle_ack now (ack_cum (receiver.next_expect - 1) receiver) (ack_sack receiver) sender

  -- After an acknowledgement a packet is in flight exactly if it was before and is not
  -- acknowledged; it is then unchanged.
  pub lookup-handle_ack :
      (now cum sack seq : ℕ) (ep : Endpoint F)
      → lookup seq (handle_ack now cum sack ep).inflight
        ≡ (if acked_by cum sack seq then none else lookup seq ep.inflight)
  unfolding handle_ack
  lookup-handle_ack now cum sack seq ep =
      ap (lookup seq)
        (ack_loop-left now cum sack (record { left = []; n = 0; rtt = 0 }) ep.inflight)
      ∙ lookup-unacked cum sack seq ep.inflight

  -- With numbers of 32 bits: when the sender has read the acknowledgement that a receiver sends, what
  -- the receiver has, below the next expected number or waiting among the 64 from it on, is taken
  -- out of flight, and all else stays in flight as it was.
  pub answered_exact :
      (now seq : ℕ) (sender receiver : Endpoint F)
      → receiver.next_expect < 2 ^ 32
      → seq < 2 ^ 32
      → KeysU32 receiver.recv_buf
      → lookup seq (answered now receiver sender).inflight ≡ (
          if ltb seq receiver.next_expect
            || (ltb (delta seq receiver.next_expect) 64 && is_some (lookup seq receiver.recv_buf))
          then none
          else lookup seq sender.inflight)
  answered_exact now seq sender receiver hn hs hk =
      lookup-handle_ack now _ _ seq sender ∙ rw (acked_by-ack_sack receiver seq hn hs hk)

  -- What holds of all packets in flight holds of those that stay.
  pub handle_ack-All :
      (P : ℕ × InflightPkt → Type 0) (now cum sack : ℕ) (ep : Endpoint F)
      → All P ep.inflight
      → All P (handle_ack now cum sack ep).inflight
  unfolding handle_ack
  handle_ack-All P now cum sack ep h =
      rw (ack_loop-left now cum sack (record { left = []; n = 0; rtt = 0 }) ep.inflight)
        (All-unacked P cum sack ep.inflight h)
