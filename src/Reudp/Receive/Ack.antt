-- ===== src/Reudp/Receive/Ack.antt =====
-- Acknowledgements: what the receiver announces is what it has, for every number on 32 bits.
use runeverything.Reudp.Packet.RoundTrip.{decode_ack-encode_ack}
use runeverything.Reudp.Packet.{ok, encode_ack, decode_ack}
use runeverything.Reudp.Send.{data_packet}
use runeverything.Reudp.Endpoint.{Endpoint}
use runeverything.Base.Float64.{Float64}
use runeverything.Base.{
  ℕ, ◌-◌, ◌^◌, ◌<◌, ◌≡◌, refl, ◌&&◌, ◌||◌, List, [], ◌∷◌, arith, ltb, ◌==◌, is_some, All,
}
use runeverything.Base.Bytes.{Bytes}
use runeverything.Base.Bits.{test_bit-zero, set_bit-lt, test_bit, set_bit, test_bit-set_bit}
use runeverything.Base.Maps.{nat_eq, lookup}
use runeverything.Reudp.Receive.{acked_by, ack_cum, ack_sack, delta, build_sack}

-- The keys are uint32.
abbrev pub KeysU32 : List (ℕ × Bytes) → Type 0
KeysU32 = All (λ p. p.0 < 2 ^ 32)

delta_injective :
    (a b base : ℕ)
    → a < 2 ^ 32
    → b < 2 ^ 32
    → base < 2 ^ 32
    → (delta a base == delta b base) ≡ (a == b)
delta_injective a b base ha hb hbase = ground arith

-- A bit of the selective part is set exactly for the numbers in the buffer.
test_bit-build_sack :
    (base sack seq : ℕ) (m : List (ℕ × Bytes))
    → base < 2 ^ 32
    → seq < 2 ^ 32
    → KeysU32 m
    → delta seq base < 64
    → test_bit (build_sack base sack m) (delta seq base)
      ≡ (is_some (lookup seq m) || test_bit sack (delta seq base))
unfolding build_sack lookup
test_bit-build_sack base sack seq [] hb hs hm near = refl
test_bit-build_sack base sack seq ((k, body) ∷ m) hb hs hm near = ground (
  arith,
  delta_injective k seq base,
  test_bit-set_bit sack (delta k base) (delta seq base),
  test_bit-build_sack base (set_bit sack (delta k base)) seq m,
  test_bit-build_sack base sack seq m,
)

pub build_sack-lt :
    (base sack : ℕ) (m : List (ℕ × Bytes)) → sack < 2 ^ 64 → build_sack base sack m < 2 ^ 64
unfolding build_sack
build_sack-lt base sack [] h = h
build_sack-lt base sack ((k, body) ∷ m) h = ground (
  arith,
  set_bit-lt 64 sack (delta k base),
  build_sack-lt base (set_bit sack (delta k base)) m,
  build_sack-lt base sack m,
)

module _ {F : Type 0} ⦃fl : Float64 F⦄ where
  pub acked_by-ack_sack :
      (ep : Endpoint F) (seq : ℕ)
      → ep.next_expect < 2 ^ 32
      → seq < 2 ^ 32
      → KeysU32 ep.recv_buf
      → acked_by (ack_cum (ep.next_expect - 1) ep) (ack_sack ep) seq ≡ (
          ltb seq ep.next_expect
          || (ltb (delta seq ep.next_expect) 64 && is_some (lookup seq ep.recv_buf)))
  unfolding acked_by ack_cum ack_sack
  acked_by-ack_sack ep seq hn hs hk = ground (
    arith,
    test_bit-build_sack ep.next_expect 0 seq ep.recv_buf hn hs hk,
    test_bit-zero (delta seq ep.next_expect),
  )

  -- With numbers of 32 bits, the acknowledgement that the receiver sends survives the wire, and the sender reads from it
  -- exactly what the receiver has: the numbers below the next expected one, and those of the next
  -- 64 that wait in the buffer.
  pub ack_exact :
      (ep : Endpoint F) (seq : ℕ)
      → ep.next_expect < 2 ^ 32
      → seq < 2 ^ 32
      → KeysU32 ep.recv_buf
      → (cum : ℕ) × (sack : ℕ) × (decode_ack
            (encode_ack (ack_cum (ep.next_expect - 1) ep) (ack_sack ep))
          ≡ ok (cum, sack))
        × (acked_by cum sack seq ≡ (
            ltb seq ep.next_expect
            || (ltb (delta seq ep.next_expect) 64 && is_some (lookup seq ep.recv_buf))))
  unfolding ack_cum ack_sack
  ack_exact ep seq hn hs hk = (
    ack_cum (ep.next_expect - 1) ep,
    ack_sack ep,
    (decode_ack-encode_ack _ _ (ground arith)
        (build_sack-lt ep.next_expect 0 ep.recv_buf (omega arith))).0,
    acked_by-ack_sack ep seq hn hs hk,
  )

  -- The acknowledgement on the back of a data packet covers exactly the numbers below the next
  -- expected one; before the first payload it covers none, not even 0.
  pub piggyback_exact :
      (ep : Endpoint F) (flags seq : ℕ) (payload : Bytes)
      → ep.next_expect < 2 ^ 32
      → seq < 2 ^ 32
      → acked_by (data_packet flags payload ep).ack 0 seq ≡ ltb seq ep.next_expect
  unfolding acked_by data_packet
  piggyback_exact ep flags seq payload hn hs =
      ground (arith, test_bit-zero (delta seq ep.next_expect))
