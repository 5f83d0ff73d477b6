-- ===== src/Reudp/Send/Retransmit/Repeated.antt =====
-- What a retransmission tick of internal/reudp/endpoint.go repeats, over whatever path.
use runeverything.Reudp.Endpoint.Said.{Said, write_bytes-Said}
use runeverything.Reudp.Send.Retransmit.{
  sweep_lem, keep_all, lookup-keep_all, write_all-Same, due, resent,
}
use runeverything.Reudp.Send.{resend, Sweep, is_due, write_all, retransmit_tick, sweep}
use runeverything.Reudp.Endpoint.{InflightPkt, Dest, Endpoint, write_bytes}
use runeverything.Base.Bytes.{Bytes}
use runeverything.Base.Float64.{Float64}
use runeverything.Base.{
  ℕ, ◌≡◌, refl, ap, ◌∙◌, inl, inr, Bool, true, false, List, [], ◌∷◌, arith, Bool-cases, All,
  is_some,
}
use runeverything.Base.Maps.{lookup, nat_eq}

module _ (Q : ℕ → Bytes → Type 0) (now : ℕ) where
  All-keep_all :
      (xs : List (ℕ × InflightPkt))
      → All (λ x. Q x.0 x.1.bytes) xs
      → All (λ x. Q x.0 x.1.bytes) (keep_all now xs)
  unfolding keep_all resent
  All-keep_all [] h = h
  All-keep_all ((seq, inf) ∷ xs) (q, h) = elim (Bool-cases (is_due now inf)) [
    | inl late ↦ rw late (q, All-keep_all xs h)
    | inr soon ↦ rw soon (q, All-keep_all xs h)
  ]

All-due :
    (P : Bytes → Type 0) (now : ℕ) (xs : List (ℕ × InflightPkt))
    → All (λ x. P x.1.bytes) xs
    → All P (due now xs)
unfolding due
All-due P now [] h = h
All-due P now ((seq, inf) ∷ xs) (p, h) = elim (Bool-cases (is_due now inf)) [
  | inl late ↦ rw late (p, All-due P now xs h)
  | inr soon ↦ rw soon (All-due P now xs h)
]

is_some-keep_all :
    (now s : ℕ) (xs : List (ℕ × InflightPkt))
    → is_some (lookup s (keep_all now xs)) ≡ is_some (lookup s xs)
is_some-keep_all now s xs = ground (arith, lookup-keep_all now s xs)

module _ {F : Type 0} ⦃fl : Float64 F⦄ (net : Dest → Bytes → Bool) where
  write_all-Said :
      (P : Bytes → Type 0) (bs : List Bytes) (ep : Endpoint F)
      → All P bs
      → Said P ep
      → Said P (write_all net bs ep)
  unfolding write_all
  write_all-Said P [] ep h said = said
  write_all-Said P (b ∷ bs) ep (p, h) said =
      write_all-Said P bs (write_bytes net b ep).0 h (write_bytes-Said P net b p ep said)

  resend_lem :
      (P : Bytes → Type 0) (s : Sweep) (ep : Endpoint F)
      → All P s.to_send
      → Said P ep
      → ((resend net s ep).inflight ≡ s.kept)
        × ((resend net s ep).next_seq ≡ ep.next_seq)
        × Said P (resend net s ep)
  unfolding resend
  resend_lem P s ep h said =
      let mid = record ep { inflight = s.kept } in
      let same = write_all-Same net s.to_send mid in
      let handed = write_all-Said P s.to_send mid h said in
      elim (Bool-cases s.lost) [
        | inl l ↦ rw l (same.inflight_eq, same.next_seq_eq, handed)
        | inr l ↦ rw l (same.inflight_eq, same.next_seq_eq, handed)
      ]

  -- What a tick keeps of a sender whose packets in flight all satisfy `Q`.
  pub record Repeats (Q : ℕ → Bytes → Type 0) (P : Bytes → Type 0) (a b : Endpoint F) : Type 0 where
    pub flight : All (λ x. Q x.0 x.1.bytes) b.inflight
    pub said : Said P b
    pub next_seq_eq : b.next_seq ≡ a.next_seq
    pub held : (s : ℕ) → is_some (lookup s b.inflight) ≡ is_some (lookup s a.inflight)

  tick_closed : (now : ℕ) (ep : Endpoint F) → ep.closed ≡ true → retransmit_tick net now ep ≡ ep
  unfolding retransmit_tick
  tick_closed now ep c = rw c refl

  pub tick_open :
      (now : ℕ) (ep : Endpoint F)
      → ep.closed ≡ false
      → retransmit_tick net now ep
        ≡ resend net (sweep now (record { kept = []; to_send = []; lost = false }) ep.inflight) ep
  unfolding retransmit_tick
  tick_open now ep c = rw c refl

  pub retransmit_tick-Repeats :
      (Q : ℕ → Bytes → Type 0) (P : Bytes → Type 0) (now : ℕ) (ep : Endpoint F)
      → All (λ x. Q x.0 x.1.bytes) ep.inflight
      → All (λ x. P x.1.bytes) ep.inflight
      → Said P ep
      → Repeats Q P ep (retransmit_tick net now ep)
  retransmit_tick-Repeats Q P now ep q p said = elim (Bool-cases ep.closed) [
    | inl c ↦
        rw (tick_closed now ep c)
          (record { flight = q; said = said; next_seq_eq = refl; held = λ s. refl })
    | inr c ↦
        let start : Sweep = record { kept = []; to_send = []; lost = false } in
        let (kept, out) = sweep_lem now start ep.inflight in
        let all_due : All P (sweep now start ep.inflight).to_send =
          rw out (All-due P now ep.inflight p) in
        let (flight, next, handed) = resend_lem P (sweep now start ep.inflight) ep all_due said in
        let same = flight ∙ kept in
        rw (tick_open now ep c) (record {
          flight = rw same (All-keep_all Q now ep.inflight q);
          said = handed;
          next_seq_eq = next;
          held = λ s. ap (λ m. is_some (lookup s m)) same ∙ is_some-keep_all now s ep.inflight;
        })
  ]
