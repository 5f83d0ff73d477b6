-- ===== src/Examples/Hubs.antt =====
-- Concrete pairings and binds for internal/auth, internal/bandwidth and cmd/relay.
use runeverything.Relay.Serve.Agent.Forward.{IsDropped, IsPassed, serve_agent_frame-IsPassed}
use runeverything.Relay.Serve.Agent.{serve_agent_frame}
use runeverything.Relay.Bind.Exclusive.{
  IsExclusive, rebound, bind_re2_client-IsExclusive, IsTaken, bind_re2_client_takeover,
}
use runeverything.Relay.Bind.{BindPayload, bind_re2_client}
use runeverything.Relay.Hub.{
  DeviceState, new_device, Hub, new_hub, device_or, device, bound_clients, client_slot,
}
use runeverything.Re2.Channel.{channel_data, channel_route}
use runeverything.Base.Bytes.{Bytes, bytes_eq}
use runeverything.Auth.{
  drop_device, PairingEntry, Store, PairAck, redeem_ok, new_store, put_pairing, redeem_pairing,
  validate_session, redeem_pairing_sound,
}
use runeverything.Re2.Frame
use runeverything.Re2.Frame.{Frame}
use runeverything.Relay.Serve
use runeverything.Relay.Serve.{
  type_register, type_pair_offer, type_pair_redeem, RelayEnv, type_bind,
}
use runeverything.Relay.Serve.Sessions
use runeverything.Relay.Serve.Sessions.{IsCapped, active-IsCapped, run}
use runeverything.Base.{
  ℕ, ◌≤◌, max, ◌≡◌, refl, ◌⊎◌, inl, inr, true, not, some, List, [], ◌∷◌, arith, if◌then◌else◌,
}
use runeverything.Base.Float64.{whole}
use runeverything.Base.Maps.{insert, lookup, bytes_eq_instance}

abbrev desk : Bytes
desk = 100 ∷ []

abbrev old_token : Bytes
old_token = 1 ∷ []

abbrev ticket : Bytes
ticket = 77 ∷ []

abbrev offered : Store
offered = put_pairing 10 desk [] [] old_token 600 new_store

abbrev ack : PairAck
ack = record { device_id = desk; session_token = ticket; name = []; relay = [] }

redeem_ok_run : (redeem_pairing 20 desk old_token (some ticket) offered).1 ≡ redeem_ok ack
unfolding put_pairing redeem_pairing new_store lookup insert drop_device bytes_eq
redeem_ok_run = refl

redeem_pairing_sound_example :
    (ent : PairingEntry) × (lookup old_token offered.pairing ≡ some ent)
    × (ent.device_id ≡ desk)
    × (20 ≤ ent.expires_at)
    × (validate_session desk ack.session_token
          (redeem_pairing 20 desk old_token (some ticket) offered).0
        ≡ bytes_eq desk desk)
redeem_pairing_sound_example =
    redeem_pairing_sound 20 desk old_token desk (some ticket) offered ack redeem_ok_run

-- The device is held by the phone with the id 5, on connection 3.
abbrev held_device : DeviceState
held_device = record (new_device desk) {
  re2_agent = some 1;
  re2_client = some 3;
  re2_client_id = 5 ∷ [];
}

abbrev held_hub : Hub
held_hub = record (new_hub 4) { devices = (desk, held_device) ∷ [] }

abbrev tablet_bind : BindPayload
tablet_bind = record {
  device_id = desk;
  session_ticket = ticket;
  channel = channel_data;
  client_id = 6 ∷ [];
  client_name = [];
  force = true;
}

abbrev phone : ℕ → Bytes
phone c = 5 ∷ []

held_hub-IsExclusive : IsExclusive phone (device desk held_hub)
unfolding device device_or new_device new_hub lookup bytes_eq
held_hub-IsExclusive = record { desktop = inr refl; bulk = tt }

bind_re2_client-IsExclusive_example :
    IsExclusive
      (if (bind_re2_client 9 desk 4 tablet_bind held_hub).1.busy
        then phone
        else rebound phone 4 tablet_bind.client_id)
      (device desk (bind_re2_client 9 desk 4 tablet_bind held_hub).0)
    × (client_slot tablet_bind.channel
          (device desk (bind_re2_client 9 desk 4 tablet_bind held_hub).0)
        ≡ (if (bind_re2_client 9 desk 4 tablet_bind held_hub).1.busy
            then client_slot tablet_bind.channel (device desk held_hub)
            else some 4))
bind_re2_client-IsExclusive_example =
    bind_re2_client-IsExclusive phone 9 4 desk tablet_bind held_hub held_hub-IsExclusive

held_hub-IsTaken : IsTaken 4 tablet_bind (device desk held_hub) 3
unfolding device device_or new_device new_hub lookup bytes_eq
held_hub-IsTaken = (inl refl, omega arith, ground arith, ground arith, ground arith)

bind_re2_client_takeover_example :
    ((bind_re2_client 9 desk 4 tablet_bind held_hub).1.busy ≡ not tablet_bind.force)
    × (bound_clients (device desk (bind_re2_client 9 desk 4 tablet_bind held_hub).0) ≡ (
        if tablet_bind.force
        then (
          4,
          (if bytes_eq tablet_bind.channel channel_data
              then channel_route (device desk held_hub).id channel_data
              else (device desk held_hub).id),
        )
          ∷ []
        else bound_clients (device desk held_hub)))
bind_re2_client_takeover_example =
    bind_re2_client_takeover 9 4 3 desk tablet_bind held_hub held_hub-IsTaken

abbrev relay_env : RelayEnv
relay_env = record {
  parse_register =
      λ b. Serve.good (record { device_id = desk; device_secret = b; name = []; channels = true });
  parse_offer = λ b. Serve.good (record { name = []; pairing_token = b; expires_at = 600 });
  parse_redeem = λ b. Serve.good (record { device_id = desk; pairing_token = b });
  parse_bind = λ b. Serve.good tablet_bind;
  now = 9;
  random = some ticket;
  public_relay = [];
  capacity_text = λ n. [];
}

abbrev frame_of : ℕ → Bytes → Frame
frame_of type payload = record { type = type; route_id = []; payload = payload }

-- An agent registers and shows a token; a client redeems it for a ticket and binds.
abbrev paired_bind : List Sessions.Event
paired_bind =
    Sessions.agent_sends relay_env 1 (frame_of type_register (42 ∷ []))
    ∷ Sessions.agent_sends relay_env 1 (frame_of type_pair_offer old_token)
    ∷ Sessions.sends relay_env 3 (frame_of type_pair_redeem old_token)
    ∷ Sessions.sends relay_env 3 (frame_of type_bind [])
    ∷ []

active-IsCapped_example :
    IsCapped (max 1 4) (run (record { hub = new_hub 4; clients = []; agents = [] }) paired_bind)
active-IsCapped_example = active-IsCapped 4 paired_bind

abbrev tunnel_frame : Frame
tunnel_frame = record { type = Frame.type_tunnel; route_id = []; payload = 8 ∷ [] }

serve_agent_frame-IsPassed_example :
    IsDropped tunnel_frame desk held_hub
      (serve_agent_frame relay_env 1 tunnel_frame desk held_hub).0
    ⊎ IsPassed tunnel_frame desk held_hub
        (serve_agent_frame relay_env 1 tunnel_frame desk held_hub).0
serve_agent_frame-IsPassed_example =
    serve_agent_frame-IsPassed relay_env 1 tunnel_frame desk held_hub (inr refl)
