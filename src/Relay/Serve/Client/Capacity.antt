-- ===== src/Relay/Serve/Client/Capacity.antt =====
-- The relay's capacity: the sessions that the loops of cmd/relay/re2.go hold, and the limiter of
-- internal/bandwidth/bandwidth.go.
use runeverything.Relay.Serve.Client.{
  kick, tell_agent, displace, detach, ClientSession, acquire, release_if,
}
use runeverything.Relay.Bind.{clear_client_of, BindPayload, bind_re2_client, clear_re2_client}
use runeverything.Relay.Hub.{
  DeviceState, Hub, device, put_device, close_conn, write_frame, client_slot,
}
use runeverything.Relay.Serve.{RelayEnv, write_re2_err, notify_peer_gone}
use runeverything.Base.Bytes.{Bytes}
use runeverything.Bandwidth.{try_acquire, release, Limiter}
use runeverything.Base.{
  ℕ, ◌+◌, ◌-◌, ◌≤◌, ◌≡◌, refl, ◌∙◌, inl, inr, Bool, true, false, not, ◌||◌, Option, none, some,
  List, [], ◌∷◌, arith, ltb, leb, if◌then◌else◌, Bool-cases,
}
use runeverything.Base.Maps.{lookup, nat_eq, bytes_eq_instance}

-- The limiter counts `n` sessions, which are no more than it admits.
pub record IsCounted (limit n : ℕ) (o : Option Limiter) : Type 0 where
  pub l : Limiter
  pub at : o ≡ some l
  pub counts : l.count ≡ n
  pub admits : l.max_sessions ≡ limit
  pub le_max : n ≤ limit

abbrev pub holds : ClientSession → ℕ
holds s = if s.acquired then 1 else 0

kick-limiter :
    (env : RelayEnv) (b : BindPayload) (xs : List (ℕ × Bytes)) (h : Hub)
    → (kick env b xs h).limiter ≡ h.limiter
unfolding kick write_frame
kick-limiter env b [] h = refl
kick-limiter env b ((x, route) ∷ xs) h = kick-limiter env b xs _

tell_agent-limiter :
    (b : BindPayload) (o : Option ℕ) (h : Hub) → (tell_agent b o h).limiter ≡ h.limiter
unfolding tell_agent write_frame
tell_agent-limiter b none h = refl
tell_agent-limiter b (some agent) h = refl

pub displace-limiter :
    (env : RelayEnv) (b : BindPayload) (xs : List (ℕ × Bytes)) (h : Hub)
    → (displace env b xs h).limiter ≡ h.limiter
unfolding displace
displace-limiter env b [] h = refl
displace-limiter env b (x ∷ xs) h =
    tell_agent-limiter b _ (kick env b (x ∷ xs) h) ∙ kick-limiter env b (x ∷ xs) h

pub close_conn-limiter : (o : Option ℕ) (c : ℕ) (h : Hub) → (close_conn o c h).limiter ≡ h.limiter
unfolding close_conn
close_conn-limiter none c h = refl
close_conn-limiter (some old) c h = ground arith

pub bind_re2_client-limiter :
    (now c : ℕ) (id : Bytes) (b : BindPayload) (h : Hub)
    → (bind_re2_client now id c b h).0.limiter ≡ h.limiter
unfolding bind_re2_client put_device
bind_re2_client-limiter now c id b h =
    let d = device id h in ground (arith, close_conn-limiter (client_slot b.channel d) c h)

pub notify_peer_gone-limiter :
    (o : Option ℕ) (route : Bytes) (h : Hub) → (notify_peer_gone o route h).limiter ≡ h.limiter
unfolding notify_peer_gone write_re2_err write_frame
notify_peer_gone-limiter none route h = refl
notify_peer_gone-limiter (some peer) route h = refl

clear_client_of-limiter :
    (id : Bytes) (c : ℕ) (o : Option DeviceState) (h : Hub)
    → (clear_client_of id c o h).0.limiter ≡ h.limiter
unfolding clear_client_of put_device
clear_client_of-limiter id c none h = refl
clear_client_of-limiter id c (some d) h = ground arith

pub detach-limiter : (c : ℕ) (id : Bytes) (h : Hub) → (detach c id h).limiter ≡ h.limiter
unfolding detach clear_re2_client
detach-limiter c id h =
    let (h', agent, route) = clear_client_of id c (lookup id h.devices) h in
    ground (
      arith,
      clear_client_of-limiter id c (lookup id h.devices) h,
      notify_peer_gone-limiter agent route h',
    )

-- A session more or not, as the limiter says.
pub acquire-IsCounted :
    (limit n : ℕ) (acquired : Bool) (o : Option Limiter)
    → IsCounted limit (n + (if acquired then 1 else 0)) o
    → IsCounted limit
        (n + (if (acquire acquired o).1 || acquired then 1 else 0))
        (acquire acquired o).0
unfolding acquire try_acquire
acquire-IsCounted limit n true o v = v
acquire-IsCounted limit n false none v = absurd (ground (arith, v.at))
acquire-IsCounted limit n false (some x) v =
    let same : x ≡ v.l = ground (arith, v.at) in
    elim (Bool-cases (leb x.max_sessions x.count)) [
      | inl full ↦ rw full (record {
        l = x;
        at = refl;
        counts = ground (arith, v.counts);
        admits = ground (arith, v.admits);
        le_max = ground (arith, v.le_max);
      })
      | inr room ↦ rw room (record {
        l = record x { count = x.count + 1 };
        at = refl;
        counts = ground (arith, v.counts);
        admits = ground (arith, v.admits);
        le_max = ground (arith, v.counts, v.admits);
      })
    ]

pub release_if-IsCounted :
    (limit n : ℕ) (b : Bool) (o : Option Limiter)
    → IsCounted limit (n + (if b then 1 else 0)) o
    → IsCounted limit n (release_if b o)
unfolding release_if release
release_if-IsCounted limit n false o v = record {
  l = v.l;
  at = v.at;
  counts = omega (arith, v.counts);
  admits = v.admits;
  le_max = omega (arith, v.le_max);
}
release_if-IsCounted limit n true none v = absurd (ground (arith, v.at))
release_if-IsCounted limit n true (some x) v =
    let same : x ≡ v.l = ground (arith, v.at) in
    let some_held : ltb 0 x.count ≡ true = ground (arith, v.counts) in
    rw some_held (record {
      l = record x { count = x.count - 1 };
      at = refl;
      counts = ground (arith, v.counts);
      admits = ground (arith, v.admits);
      le_max = omega (arith, v.le_max);
    })

pub added_zero :
    {limit n : ℕ} {o : Option Limiter} → IsCounted limit n o → IsCounted limit (n + 0) o
added_zero v = record {
  l = v.l;
  at = v.at;
  counts = omega (arith, v.counts);
  admits = v.admits;
  le_max = omega (arith, v.le_max);
}

-- A session that was taken for a bind which is refused is given back.
pub given_back :
    (limit n : ℕ) (acquired : Bool) (o : Option Limiter)
    → IsCounted limit (n + 1) o
    → IsCounted limit (n + (if acquired then 1 else 0)) (release_if (not acquired) o)
unfolding release_if
given_back limit n true o v = v
given_back limit n false o v = added_zero (release_if-IsCounted limit n true o v)
