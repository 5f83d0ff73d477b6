-- ===== src/Reudp/Link/Arrival.antt =====
-- A data packet as a whole: `dispatch` in `readLoopConn` of internal/reudp/endpoint.go.
use runeverything.Reudp.Receive.Delivery.Loop.{has}
use runeverything.Reudp.Receive.Delivery.Runs.{arrival}
use runeverything.Reudp.Receive.Ack.{KeysU32}
use runeverything.Reudp.Receive.Frame.{send_ack-Same}
use runeverything.Reudp.Link.Receiver.{Kept, drain-Kept, send_ack-Said}
use runeverything.Reudp.Link.Datagrams.{IsAck}
use runeverything.Reudp.Endpoint.Frame.{Same}
use runeverything.Reudp.Endpoint.Said.{Said}
use runeverything.Reudp.Endpoint.{Endpoint}
use runeverything.Reudp.Receive.{Env, ack_cum, send_ack, drain_all, accept, handle_data}
use runeverything.Base.Bytes.{Bytes}
use runeverything.Base.{
  ℕ, ◌-◌, ◌^◌, ◌<◌, ◌≡◌, refl, sym, ◌∙◌, inl, inr, true, arith, ltb, if◌then◌else◌, Bool-cases,
  length, All-mono,
}
use runeverything.Base.Float64.{Float64}
use runeverything.Base.Maps.{All-insert, insert, nat_eq}

module _ {F : Type 0} ⦃fl : Float64 F⦄ where
  pub IsAck-mono :
      (a b : Endpoint F) (x : Bytes)
      → ((s : ℕ) → has a s ≡ true → has b s ≡ true)
      → IsAck a x
      → IsAck b x
  IsAck-mono a b x more v = record {
    p = v.p;
    cum = v.cum;
    sack = v.sack;
    text = v.text;
    is_ack = v.is_ack;
    body = v.body;
    sound = λ s small told. more s (v.sound s small told);
  }

  Same-has : (a b : Endpoint F) → Same a b → (s : ℕ) → has b s ≡ has a s
  unfolding has
  Same-has a b same s = rw (same.next_expect_eq, same.recv_buf_eq) refl

  send_ack-acks :
      (env : Env) (cum : ℕ) (old ep : Endpoint F)
      → ack_cum cum ep ≡ ack_cum (ep.next_expect - 1) ep
      → ep.next_expect < 2 ^ 32
      → ep.route_hash < 2 ^ 32
      → KeysU32 ep.recv_buf
      → ((s : ℕ) → has old s ≡ true → has ep s ≡ true)
      → Said (IsAck old) ep
      → Said (IsAck (send_ack env cum ep)) (send_ack env cum ep)
  send_ack-acks env cum old ep same hn hh hk more said =
      let after = send_ack env cum ep in
      let kept : (s : ℕ) → has after s ≡ has ep s = Same-has ep after (send_ack-Same env cum ep) in
      send_ack-Said (IsAck after) env cum ep same hn hh hk
        (λ b v. IsAck-mono ep after b (λ s e. kept s ∙ e) v)
        (All-mono ep.sent (λ x v. IsAck-mono old after x.1 (λ s e. kept s ∙ more s e) v) said)

  accept-Kept :
      (env : Env) (seq : ℕ) (b : Bytes) (ep : Endpoint F)
      → seq < 2 ^ 32
      → KeysU32 ep.recv_buf
      → Kept ep (accept env seq b ep)
  unfolding accept drain_all
  accept-Kept env seq b ep small h =
      let r =
        drain-Kept (length (insert seq b ep.recv_buf)) env.reads 0
          (record ep { recv_buf = insert seq b ep.recv_buf })
          (All-insert (λ x. x.0 < 2 ^ 32) seq b ep.recv_buf small h) in
      record { keys = r.keys; sent_eq = r.sent_eq; hash_eq = r.hash_eq }

  -- What a receiver keeps true of its own acknowledgements.
  pub record Answers (ep : Endpoint F) : Type 0 where
    pub keys : KeysU32 ep.recv_buf
    pub acks : Said (IsAck ep) ep

  last_cum :
      (ep : Endpoint F)
      → ack_cum (if ltb 0 ep.next_expect then ep.next_expect - 1 else 0) ep
        ≡ ack_cum (ep.next_expect - 1) ep
  unfolding ack_cum
  last_cum ep = ground arith

  -- The acknowledgement that ends a handler whose work left `mid`.
  answered_Answers :
      (env : Env) (cum : ℕ) (ep mid : Endpoint F)
      → ack_cum cum mid ≡ ack_cum (mid.next_expect - 1) mid
      → KeysU32 mid.recv_buf
      → mid.sent ≡ ep.sent
      → mid.route_hash < 2 ^ 32
      → (send_ack env cum mid).next_expect < 2 ^ 32
      → ((s : ℕ) → has ep s ≡ true → has (send_ack env cum mid) s ≡ true)
      → Answers ep
      → Answers (send_ack env cum mid)
  answered_Answers env cum ep mid same_cum keys sent_eq hh hn more v =
      let same = send_ack-Same env cum mid in
      let small : mid.next_expect < 2 ^ 32 = rw same.next_expect_eq at hn in
      let said : Said (IsAck ep) mid = rw sent_eq v.acks in
      record {
        keys = rw same.recv_buf_eq keys;
        acks =
            send_ack-acks env cum ep mid same_cum small hh keys
              (λ s e. sym (Same-has mid (send_ack env cum mid) same s) ∙ more s e) said;
      }

  pub handle_data-Answers :
      (msgs : ℕ → Bytes) (env : Env) (seq : ℕ) (ep : Endpoint F)
      → seq < 2 ^ 32
      → (handle_data env (arrival msgs seq) ep).next_expect < 2 ^ 32
      → ep.route_hash < 2 ^ 32
      → ((s : ℕ) → has ep s ≡ true → has (handle_data env (arrival msgs seq) ep) s ≡ true)
      → Answers ep
      → Answers (handle_data env (arrival msgs seq) ep)
  unfolding handle_data arrival
  handle_data-Answers msgs env seq ep small = elim (Bool-cases (ltb seq ep.next_expect)) [
    | inl old ↦
        rw (old, handle_data)
          (λ hn hh more v.
            answered_Answers env (ep.next_expect - 1) ep ep refl v.keys refl hh hn more v)
    | inr new ↦
        rw (new, handle_data)
          (λ hn hh more v.
            let mid = accept env seq (msgs seq) ep in
            let k = accept-Kept env seq (msgs seq) ep small v.keys in
            answered_Answers env _ ep mid (last_cum mid) k.keys k.sent_eq (omega (arith, k.hash_eq))
              hn more v)
  ]
