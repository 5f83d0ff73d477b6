-- ===== src/Reudp/Send/Sent.antt =====
-- The endpoint after a reliable send that may go ahead: `sendData` of internal/reudp/endpoint.go.
use runeverything.Reudp.Packet.{max_payload, flag_reliable, ok, decode}
use runeverything.Reudp.Packet.RoundTrip.{decode-encode}
use runeverything.Reudp.Send.Reliable.{IsU32, data_packet-IsPacket, finish_send_state}
use runeverything.Reudp.Send.{
  may_send, send_encoded, transmit, after_wait, SendEnv, max_polls, wait_window, data_packet,
  take_seq, record_inflight, send_data, send_reliable,
}
use runeverything.Reudp.Endpoint.{Endpoint, write_bytes}
use runeverything.Base.Bytes.{Bytes}
use runeverything.Base.Float64.{Float64}
use runeverything.Base.{◌≤◌, ◌≡◌, false, [], append-nil, arith, ltb, length}

module _ {F : Type 0} ⦃fl : Float64 F⦄ where
  -- The bytes are recorded under the number before they are written.
  pub record Put (env : SendEnv F) (payload : Bytes) (ep : Endpoint F) (r : Endpoint F)
      : Type 0 where
    pub bytes : Bytes
    pub readable : decode bytes ≡ ok (data_packet flag_reliable payload ep)
    pub written :
        r
        ≡ (write_bytes env.net bytes (
            record_inflight env.sent_now flag_reliable ep.next_seq bytes
              (take_seq flag_reliable ep))).0

  transmit-Put :
      (env : SendEnv F) (payload : Bytes) (ep : Endpoint F)
      → IsU32 ep
      → length payload ≤ max_payload
      → Put env payload ep (transmit env flag_reliable payload ep).0
  unfolding transmit send_encoded data_packet
  transmit-Put env payload ep v h =
      let p = data_packet flag_reliable payload ep in
      let (b, e, fits, back) =
        decode-encode p [] [] (data_packet-IsPacket flag_reliable payload ep v (omega arith)) h in
      record {
        bytes = b;
        readable = rw append-nil at back;
        written = rw (e, send_encoded) (finish_send_state _);
      }

  pub send_reliable-Put :
      (env : SendEnv F) (payload : Bytes) (ep : Endpoint F)
      → IsU32 ep
      → length payload ≤ max_payload
      → wait_window max_polls env 0 ep ≡ (ep, may_send)
      → Put env payload ep (send_reliable env payload ep).0
  unfolding send_reliable send_data after_wait
  send_reliable-Put env payload ep v h waited =
      let fits : ltb max_payload (length payload) ≡ false = ground arith in
      rw (fits, send_data, waited) (transmit-Put env payload ep v h)
