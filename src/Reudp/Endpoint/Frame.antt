-- ===== src/Reudp/Endpoint/Frame.antt =====
-- What a write leaves alone: it changes the choice of the path and the record of datagrams only.
use runeverything.Reudp.Packet.{Packet}
use runeverything.Reudp.Address.{Addr}
use runeverything.Base.Bytes.{Bytes}
use runeverything.Base.Float64.{Float64}
use runeverything.Base.{ℕ, ◌≡◌, Bool, true, none, some, [], ◌∷◌, ◌++◌, arith, if◌then◌else◌}
use runeverything.Reudp.Endpoint.{
  Dest, punched, main_to, Endpoint, write_bytes, write_raw, hand_over,
}

module _ {F : Type 0} where
  -- The receiving and the sending half of the two states agree.
  pub record Same (a b : Endpoint F) : Type 0 where
    pub next_seq_eq : b.next_seq ≡ a.next_seq
    pub next_expect_eq : b.next_expect ≡ a.next_expect
    pub inflight_eq : b.inflight ≡ a.inflight
    pub recv_buf_eq : b.recv_buf ≡ a.recv_buf
    pub incoming_eq : b.incoming ≡ a.incoming
    pub cong_eq : b.cong ≡ a.cong
    pub closed_eq : b.closed ≡ a.closed

  pub Same-refl : (a : Endpoint F) → Same a a
  Same-refl a = ground arith

  pub Same-trans : {a b c : Endpoint F} → Same a b → Same b c → Same a c
  Same-trans s t = ground arith

module _ {F : Type 0} ⦃fl : Float64 F⦄ where
  pub write_bytes-Same :
      (net : Dest → Bytes → Bool) (b : Bytes) (ep : Endpoint F) → Same ep (write_bytes net b ep).0
  unfolding write_bytes
  write_bytes-Same net b ep = ground arith

  pub write_raw-Same :
      (net : Dest → Bytes → Bool) (p : Packet) (ep : Endpoint F) → Same ep (write_raw net p ep).0
  unfolding write_raw
  write_raw-Same net p ep = ground arith

  -- Where a punched socket is preferred and there is no direct address, a datagram is handed to that
  -- socket, and to the relay too exactly if the socket fails.
  pub write_bytes_fallback :
      (net : Dest → Bytes → Bool) (b : Bytes) (ep : Endpoint F) {relay : Addr}
      → ep.relay_addr ≡ some relay
      → (conn : ℕ) → ep.direct_conn ≡ some conn
      → ep.direct_addr ≡ none
      → ep.prefer_direct ≡ true
      → (write_bytes net b ep).0.sent ≡ (
          if net (punched conn) b
          then ep.sent ++ ((punched conn, b) ∷ [])
          else (ep.sent ++ ((punched conn, b) ∷ [])) ++ ((main_to relay, b) ∷ []))
  unfolding write_bytes hand_over
  write_bytes_fallback net b ep hr conn hc ha hp = ground arith
