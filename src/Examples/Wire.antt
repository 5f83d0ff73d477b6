-- ===== src/Examples/Wire.antt =====
-- Concrete packets, frames and fragments for internal/reudp and internal/re2.
use runeverything.Re2.Video.Fragments.{reassemble, reassemble-fragment_nal}
use runeverything.Re2.Frame.RoundTrip.{decode_frame-encode_frame}
use runeverything.Re2.Video.{chunk_size, nparts_of, fragment_nal}
use runeverything.Re2.Frame.{encode_frame, decode_frame}
use runeverything.Re2.Message.{cut_sid}
use runeverything.Reudp.Packet.RoundTrip.{IsPacket, decode-encode}
use runeverything.Reudp.Packet.{header_size, max_packet}
use runeverything.Base.Bytes.{Bytes}
use runeverything.Base.{◌≤◌, ◌≡◌, some, [], ◌∷◌, ◌++◌, arith, length, replicate}
use runeverything.Reudp.Packet
use runeverything.Reudp.Packet.{Packet}
use runeverything.Re2.Frame
use runeverything.Re2.Frame.{Frame}

abbrev hello : Bytes
hello = 104 ∷ 101 ∷ 108 ∷ 108 ∷ 111 ∷ []

abbrev hello_packet : Packet
hello_packet = record {
  type = 0x10;
  flags = 1;
  route_hash = 0xdeadbeef;
  seq = 7;
  ack = 6;
  payload = hello;
}

hello_packet-IsPacket : IsPacket hello_packet
hello_packet-IsPacket = record {
  type_byte = omega arith;
  flags_byte = omega arith;
  hash_u32 = omega arith;
  seq_u32 = omega arith;
  ack_u32 = omega arith;
}

decode-encode_example :
    (b : Bytes) × (Packet.encode hello_packet [] ≡ Packet.ok b)
    × (length b ≤ max_packet)
    × (Packet.decode (b ++ (1 ∷ [])) ≡ Packet.ok hello_packet)
decode-encode_example = decode-encode hello_packet [] (1 ∷ []) hello_packet-IsPacket (omega arith)

abbrev hello_frame : Frame
hello_frame = record { type = Frame.type_tunnel; route_id = 100 ∷ 49 ∷ []; payload = hello }

decode_frame-encode_frame_example :
    (b : Bytes) × (encode_frame [] hello_frame ≡ Frame.ok b)
    × (decode_frame (b ++ (9 ∷ [])) ≡ Frame.ok (hello_frame, 9 ∷ []))
decode_frame-encode_frame_example =
    decode_frame-encode_frame hello_frame (9 ∷ []) (omega arith) (omega arith)

-- 100 bytes with room for 64 in a datagram.
abbrev big_nal : Bytes
big_nal = replicate 100 7

reassemble-fragment_nal_example :
    reassemble 0
      (nparts_of big_nal (chunk_size (115 ∷ []) 64))
      (fragment_nal (115 ∷ []) 12 1 big_nal 64)
    ≡ some big_nal
reassemble-fragment_nal_example =
    reassemble-fragment_nal (115 ∷ []) 12 1 big_nal 64 (cc) (omega arith)
      (unfold nparts_of chunk_size cut_sid in omega arith)
