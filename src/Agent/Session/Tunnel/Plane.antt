-- ===== src/Agent/Session/Tunnel/Plane.antt =====
-- `sendTunnel` of cmd/agent/desktop.go: on which of its two planes a session's messages go out.
use runeverything.Agent.Session.Tunnel.{Ciphers, TunnelEnv}
use runeverything.Agent.Session.{Agent, Wire, on_relay, on_udp}
use runeverything.Base.Bytes.{Bytes}
use runeverything.Base.Float64.{Float64}
use runeverything.Base.{
  ℕ, ◌≡◌, refl, Bool, true, false, Option, none, some, List, some-injective, is_some, All,
}
use runeverything.Re2.Frame.{type_tunnel}

-- What tells the sessions of the two planes apart, and the texts that they encrypt: whatever it is,
-- use of a session does not change it.
pub record Sides {S V : Type 0} (ciphers : Ciphers S V) : Type 1 where
  pub Udp : S → Type 0
  pub Relayed : S → Type 0
  pub UdpText : Bytes → Type 0
  pub RelayedText : Bytes → Type 0
  pub udp_encrypt :
      (s s' : S) (m c : Bytes) → ciphers.encrypt s m ≡ some (s', c) → Udp s → Udp s' × UdpText c
  pub udp_decrypt : (s s' : S) (c m : Bytes) → ciphers.decrypt s c ≡ some (s', m) → Udp s → Udp s'
  pub relayed_encrypt :
      (s s' : S) (m c : Bytes)
      → ciphers.encrypt s m ≡ some (s', c)
      → Relayed s
      → Relayed s' × RelayedText c
  pub relayed_decrypt :
      (s s' : S) (c m : Bytes) → ciphers.decrypt s c ≡ some (s', m) → Relayed s → Relayed s'

-- The part of the state that the planes are about.
abbrev pub Core : Type 0 → Type 0 → Type 0
Core S V = Bytes × Option S × Option V × Bool × Bool × List Wire

module _ {S V F : Type 0} where
  abbrev pub core : Agent S V F → Core S V
  core a = (a.device_id, a.re2_sess, a.video_media, a.use_udp, is_some a.udp_ep, a.written)

module _ {S V : Type 0} {ciphers : Ciphers S V} (sides : Sides ciphers) (device : Bytes) where
  -- With the datagrams there is an endpoint and a session that was made on it; without them there
  -- is no video plane, and a session, if any, was made through the relay.
  abbrev pub Plane : Option S → Option V → Bool → Bool → Type 0
  Plane (some s) m true true = sides.Udp s
  Plane (some s) m true false = ⊥
  Plane none m true e = ⊥
  Plane none none false e = Unit
  Plane (some s) none false e = sides.Relayed s
  Plane o (some v) false e = ⊥

  pub Plane-udp :
      (o : Option S) (m : Option V) (u e : Bool)
      → Plane o m u e
      → u ≡ true
      → (e ≡ true) × (s : S) × (o ≡ some s) × sides.Udp s
  Plane-udp (some s) m true true h w = (refl, s, refl, h)
  Plane-udp (some s) m true false h w = absurd h
  Plane-udp none m true e h w = absurd h
  Plane-udp o m false e h w = absurd (cc)

  pub Plane-empty : (u e : Bool) → u ≡ false → Plane none none u e
  Plane-empty true e off = absurd (cc)
  Plane-empty false e off = tt

  pub Plane-none : (m : Option V) (u e : Bool) → Plane none m u e → u ≡ false
  Plane-none m true e h = absurd h
  Plane-none m false e h = refl

  pub Plane-relayed :
      (o : Option S) (m : Option V) (u e : Bool)
      → Plane o m u e
      → u ≡ false
      → (m ≡ none) × ((s : S) → o ≡ some s → sides.Relayed s)
  Plane-relayed o m true e h w = absurd (cc)
  Plane-relayed none none false e h w = (refl, λ s same. cc)
  Plane-relayed (some t) none false e h w =
      (refl, λ s same. let at : t ≡ s = some-injective same in rw (← at) h)
  Plane-relayed none (some v) false e h w = absurd h
  Plane-relayed (some t) (some v) false e h w = absurd h

  pub Plane-of_udp :
      (s : S) (m : Option V) (u e : Bool) → Plane (some s) m u e → u ≡ true → sides.Udp s
  Plane-of_udp s m true true h w = h
  Plane-of_udp s m true false h w = absurd h
  Plane-of_udp s m false e h w = absurd (cc)

  pub Plane-next :
      (s s' : S) (m : Option V) (u e : Bool)
      → (sides.Udp s → sides.Udp s')
      → (sides.Relayed s → sides.Relayed s')
      → Plane (some s) m u e
      → Plane (some s') m u e
  Plane-next s s' m true true f g h = f h
  Plane-next s s' m true false f g h = h
  Plane-next s s' none false e f g h = g h
  Plane-next s s' (some v) false e f g h = h

  -- On the datagrams go texts of sessions made there; in the TUNNEL frames of the desktop channel go
  -- texts of sessions made through the relay.
  abbrev pub IsRight : Wire → Type 0
  IsRight (on_udp c) = sides.UdpText c
  IsRight (on_relay f) = f.type ≡ type_tunnel → f.route_id ≡ device → sides.RelayedText f.payload

  abbrev pub IsOnPlane : Core S V → Type 0
  IsOnPlane (id, o, m, u, e, ws) = (id ≡ device) × Plane o m u e × All IsRight ws

module _ {S V F : Type 0} ⦃fl : Float64 F⦄ {ciphers : Ciphers S V} (sides : Sides ciphers)
    (device : Bytes) where
  abbrev pub OnPlane : Agent S V F → Type 0
  OnPlane a = IsOnPlane sides device (core a)

  -- The sender's ciphers are those, and what the other goroutines do keeps to the planes.
  pub record IsFair (env : TunnelEnv S V F) : Type 0 where
    pub same : env.ciphers ≡ ciphers
    pub kept : (i : ℕ) (a : Agent S V F) → OnPlane a → OnPlane (env.others i a)
