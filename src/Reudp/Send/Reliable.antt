-- ===== src/Reudp/Send/Reliable.antt =====
-- What a send does to the reliable stream: `sendData` of internal/reudp/endpoint.go.
use runeverything.Reudp.Congestion.{on_send}
use runeverything.Reudp.Packet.{max_payload, flag_reliable, ok, err, decode, Result}
use runeverything.Reudp.Send.{
  Wait, was_closed, may_send, gave_up, finish_send, send_encoded, transmit, after_wait, SendResult,
  done, write_failed,
}
use runeverything.Reudp.Packet.RoundTrip.{encode-image, decode-encode, IsPacket}
use runeverything.Reudp.Endpoint.Frame.{Same-refl, write_bytes-Same, Same}
use runeverything.Reudp.Send.{
  SendEnv, max_polls, wait_window, data_packet, take_seq, record_inflight, send_data, send_reliable,
}
use runeverything.Reudp.Endpoint.{Endpoint}
use runeverything.Reudp.Receive.{is_reliable}
use runeverything.Base.Bytes.{Bytes, IsByte}
use runeverything.Base.Float64.{Float64}
use runeverything.Base.{
  ℕ, ◌+◌, ◌%◌, ◌^◌, ◌≤◌, ◌<◌, ◌≡◌, refl, ◌≢◌, ◌⊎◌, inl, inr, Bool, true, false, some, [],
  append-nil, arith, ltb, Bool-cases, length,
}
use runeverything.Base.Maps.{lookup-insert, lookup, nat_eq}

-- The endpoint's own fields are uint32.
pub record IsU32 {F : Type 0} (ep : Endpoint F) : Type 0 where
  pub hash_u32 : ep.route_hash < 2 ^ 32
  pub next_seq_u32 : ep.next_seq < 2 ^ 32
  pub next_expect_u32 : ep.next_expect < 2 ^ 32

module _ {F : Type 0} ⦃fl : Float64 F⦄ where
  pub data_packet-IsPacket :
      (flags : ℕ) (payload : Bytes) (ep : Endpoint F)
      → IsU32 ep
      → IsByte flags
      → IsPacket (data_packet flags payload ep)
  unfolding data_packet
  data_packet-IsPacket flags payload ep v h = ground arith

  pub finish_send_state : (r : Endpoint F × Bool) → (finish_send r).0 ≡ r.0
  unfolding finish_send
  finish_send_state (ep, true) = refl
  finish_send_state (ep, false) = refl

  finish_send_result :
      (r : Endpoint F × Bool) → ((finish_send r).1 ≡ done) ⊎ ((finish_send r).1 ≡ write_failed)
  unfolding finish_send
  finish_send_result (ep, true) = inl refl
  finish_send_result (ep, false) = inr refl

  send_encoded-Same :
      (env : SendEnv F) (flags seq : ℕ) (r : Result Bytes) (ep : Endpoint F)
      → is_reliable flags ≡ false
      → Same ep (send_encoded env flags seq r ep).0
  unfolding send_encoded record_inflight
  send_encoded-Same env flags seq (ok b) ep rel =
      rw (finish_send_state, rel) (write_bytes-Same env.net b ep)
  send_encoded-Same env flags seq (err e) ep rel = Same-refl ep

  -- A payload without the reliable flag takes no sequence number, no place in flight and no place
  -- in the window, however the writing goes.
  send_data_unreliable :
      (env : SendEnv F) (flags : ℕ) (payload : Bytes) (ep : Endpoint F)
      → is_reliable flags ≡ false
      → Same ep (send_data env flags payload ep).0
  unfolding send_data transmit take_seq
  send_data_unreliable env flags payload ep rel =
      elim (Bool-cases (ltb max_payload (length payload))) [
        | inl big ↦ rw (big, send_data) (Same-refl ep)
        | inr fits ↦
            rw (fits, rel, send_data, transmit, take_seq) (send_encoded-Same env flags _ _ ep rel)
      ]

  -- What a send that may go ahead makes of the endpoint `w`.
  pub record Recorded (env : SendEnv F) (payload : Bytes) (w : Endpoint F)
      (r : Endpoint F × SendResult) : Type 0 where
    pub bytes : Bytes
    pub in_flight :
        lookup w.next_seq r.0.inflight
        ≡ some (record { bytes = bytes; sent_at = env.sent_now; retries = 0 })
    pub readable : decode bytes ≡ ok (data_packet flag_reliable payload w)
    pub next : r.0.next_seq ≡ (w.next_seq + 1) % 2 ^ 32
    pub counted : r.0.cong.in_flight ≡ w.cong.in_flight + 1
    pub ended : (r.1 ≡ done) ⊎ (r.1 ≡ write_failed)

  transmit-Recorded :
      (env : SendEnv F) (payload : Bytes) (w : Endpoint F)
      → IsU32 w
      → length payload ≤ max_payload
      → Recorded env payload w (transmit env flag_reliable payload w)
  unfolding transmit send_encoded record_inflight take_seq on_send data_packet
  transmit-Recorded env payload w v h =
      let p = data_packet flag_reliable payload w in
      let (b, e, fits, back) =
        decode-encode p [] [] (data_packet-IsPacket flag_reliable payload w v (omega arith)) h in
      let w' = record_inflight env.sent_now flag_reliable w.next_seq b (take_seq flag_reliable w) in
      let same = write_bytes-Same env.net b w' in
      rw (e, send_encoded)
        (record {
          bytes = b;
          in_flight =
              rw (finish_send_state, same.inflight_eq)
                (ground (
                  arith,
                  lookup-insert w.next_seq w.next_seq
                      (record { bytes = b; sent_at = env.sent_now; retries = 0 }) w.inflight,
                ));
          readable = rw append-nil at back;
          next = rw finish_send_state same.next_seq_eq;
          counted = rw (finish_send_state, same.cong_eq);
          ended = finish_send_result _;
        })

  -- A reliable payload that fits, and for which the window opens while the sender waits, takes the
  -- next sequence number. From then on it is in flight under that number, as bytes that the
  -- receiver decodes to the packet, whether or not the first write succeeds.
  pub send_reliable-Recorded :
      (env : SendEnv F) (payload : Bytes) (ep w : Endpoint F)
      → IsU32 w
      → length payload ≤ max_payload
      → wait_window max_polls env 0 ep ≡ (w, may_send)
      → Recorded env payload w (send_reliable env payload ep)
  unfolding send_reliable send_data after_wait
  send_reliable-Recorded env payload ep w v h waited =
      let fits : ltb max_payload (length payload) ≡ false = ground arith in
      rw (fits, send_data, waited) (transmit-Recorded env payload w v h)

  transmit_ended :
      (env : SendEnv F) (payload : Bytes) (w : Endpoint F)
      → length payload ≤ max_payload
      → ((transmit env flag_reliable payload w).1 ≡ done)
        ⊎ ((transmit env flag_reliable payload w).1 ≡ write_failed)
  unfolding transmit send_encoded data_packet
  transmit_ended env payload w h =
      rw (encode-image (data_packet flag_reliable payload w) [] h, send_encoded)
        (finish_send_result _)

  after_wait_refused :
      (env : SendEnv F) (payload : Bytes) (p : Endpoint F × Wait)
      → length payload ≤ max_payload
      → (after_wait env flag_reliable payload p).1 ≢ done
      → (after_wait env flag_reliable payload p).1 ≢ write_failed
      → (after_wait env flag_reliable payload p).0 ≡ p.0
  unfolding after_wait
  after_wait_refused env payload (w, may_send) h nd nw =
      absurd (ground (arith, transmit_ended env payload w h))
  after_wait_refused env payload (w, was_closed) h nd nw = refl
  after_wait_refused env payload (w, gave_up) h nd nw = refl

  -- A reliable send that neither succeeds nor fails in writing has taken no sequence number and
  -- put nothing in flight: the endpoint is as it was, or as the wait for the window left it.
  send_reliable_refused :
      (env : SendEnv F) (payload : Bytes) (ep : Endpoint F)
      → (send_reliable env payload ep).1 ≢ done
      → (send_reliable env payload ep).1 ≢ write_failed
      → ((send_reliable env payload ep).0 ≡ ep)
        ⊎ ((send_reliable env payload ep).0 ≡ (wait_window max_polls env 0 ep).0)
  unfolding send_reliable send_data
  send_reliable_refused env payload ep nd nw =
      ground (arith, after_wait_refused env payload (wait_window max_polls env 0 ep))
