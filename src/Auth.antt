-- ===== src/Auth.antt =====
-- internal/auth/auth.go: short-lived pairing tokens and the session tickets that they are redeemed
-- for. Times are numbers on one clock; random tokens are an argument.
use runeverything.Base.{
  ℕ, ◌+◌, ◌≤◌, ◌≡◌, refl, ◌≢◌, ◌⊎◌, Bool, false, not, Option, none, some, List, [], ◌∷◌, arith, ltb,
  if◌then◌else◌,
}
use runeverything.Base.Bytes.{Bytes, bytes_eq, bytes_eq_iff}
use runeverything.Base.Maps.{bytes_eq_instance, lookup, insert, delete, lookup-insert}

pub record PairingEntry : Type 0 where
  pub token : Bytes
  pub device_id : Bytes
  pub name : Bytes
  pub relay : Bytes
  pub expires_at : ℕ

pub record SessionEntry : Type 0 where
  pub token : Bytes
  pub device_id : Bytes
  pub name : Bytes

pub record Store : Type 0 where
  pub pairing : List (Bytes × PairingEntry)
  pub sessions : List (Bytes × SessionEntry)

pub record PairAck : Type 0 where
  pub device_id : Bytes
  pub session_token : Bytes
  pub name : Bytes
  pub relay : Bytes

pub data RedeemResult : Type 0 where
  redeem_ok : PairAck → RedeemResult
  redeem_unknown redeem_expired redeem_device_mismatch : RedeemResult

unfoldable pub new_store : Store
new_store = record { pairing = []; sessions = [] }

-- The loop that deletes a device's earlier tokens.
unfoldable pub drop_device : Bytes → List (Bytes × PairingEntry) → List (Bytes × PairingEntry)
drop_device device_id [] = []
drop_device device_id ((k, v) ∷ m) =
    if bytes_eq v.device_id device_id
    then drop_device device_id m
    else (k, v) ∷ drop_device device_id m

unfoldable pub put_pairing : ℕ → Bytes → Bytes → Bytes → Bytes → ℕ → Store → Store
put_pairing now device_id name relay token ttl s = record s {
  pairing =
      insert token
        (record {
          token = token;
          device_id = device_id;
          name = name;
          relay = relay;
          expires_at = now + ttl;
        })
        (drop_device device_id s.pairing);
}

mint : Bytes → PairingEntry → Option Bytes → Store → Store × RedeemResult
mint device_id ent none s = (s, redeem_unknown)
mint device_id ent (some sess) s = (
  record s {
    sessions =
        insert sess (record { token = sess; device_id = device_id; name = ent.name }) s.sessions;
  },
  redeem_ok
      (record { device_id = device_id; session_token = sess; name = ent.name; relay = ent.relay }),
)

redeem_entry : ℕ → Bytes → Bytes → Option Bytes → Option PairingEntry → Store → Store × RedeemResult
unfolding mint
redeem_entry now device_id token random none s = (s, redeem_unknown)
redeem_entry now device_id token random (some ent) s =
    if not (bytes_eq ent.device_id device_id)
    then (s, redeem_device_mismatch)
    else if ltb ent.expires_at now
    then (record s { pairing = delete token s.pairing }, redeem_expired)
    else mint device_id ent random s

-- `random` is the fresh session token, or `none` if there is no randomness to be had.
unfoldable pub redeem_pairing : ℕ → Bytes → Bytes → Option Bytes → Store → Store × RedeemResult
unfolding redeem_entry
redeem_pairing now device_id token random s =
    redeem_entry now device_id token random (lookup token s.pairing) s

session_of : Bytes → Option SessionEntry → Bool
session_of device_id none = false
session_of device_id (some ent) = bytes_eq ent.device_id device_id

unfoldable pub validate_session : Bytes → Bytes → Store → Bool
unfolding session_of
validate_session device_id token s = session_of device_id (lookup token s.sessions)

-- `ConstantTimeEqual`
abbrev pub constant_time_equal : Bytes → Bytes → Bool
constant_time_equal = bytes_eq

of_device : Bytes → Option PairingEntry → Bool
of_device device_id none = false
of_device device_id (some ent) = bytes_eq ent.device_id device_id

lookup-drop_device :
    (device_id token : Bytes) (m : List (Bytes × PairingEntry))
    → of_device device_id (lookup token (drop_device device_id m)) ≡ false
unfolding lookup drop_device of_device
lookup-drop_device device_id token [] = refl
lookup-drop_device device_id token ((k, v) ∷ m) =
    ground (arith, lookup-drop_device device_id token m)

-- When a device has shown a new pairing token, no other token redeems anything for it any more.
put_pairing_supersedes :
    (now later ttl : ℕ) (device_id name relay token old : Bytes) (random : Option Bytes) (s : Store)
    → token ≢ old
    → ((redeem_pairing later device_id old random
          (put_pairing now device_id name relay token ttl s)).1
        ≡ redeem_unknown)
      ⊎ ((redeem_pairing later device_id old random
            (put_pairing now device_id name relay token ttl s)).1
          ≡ redeem_device_mismatch)
unfolding put_pairing redeem_pairing of_device
put_pairing_supersedes now later ttl device_id name relay token old random s ne =
    let ent : PairingEntry = record {
      token = token;
      device_id = device_id;
      name = name;
      relay = relay;
      expires_at = now + ttl;
    } in
    ground (
      arith,
      lookup-drop_device device_id old s.pairing,
      bytes_eq_iff token old,
      lookup-insert token old ent (drop_device device_id s.pairing),
    )

redeem_entry_sound :
    (now : ℕ) (device_id token other : Bytes) (random : Option Bytes) (found : Option PairingEntry)
    (s : Store) (ack : PairAck)
    → (redeem_entry now device_id token random found s).1 ≡ redeem_ok ack
    → (ent : PairingEntry) × (found ≡ some ent)
      × (ent.device_id ≡ device_id)
      × (now ≤ ent.expires_at)
      × (validate_session other ack.session_token
            (redeem_entry now device_id token random found s).0
          ≡ bytes_eq device_id other)
unfolding redeem_entry validate_session
redeem_entry_sound now device_id token other random none s ack h = cc
redeem_entry_sound now device_id token other none (some ent) s ack h = absurd (ground arith)
redeem_entry_sound now device_id token other (some sess) (some ent) s ack h =
    let new : SessionEntry = record { token = sess; device_id = device_id; name = ent.name } in
    let same = bytes_eq_iff ent.device_id device_id in
    (
      ent,
      refl,
      ground (arith, same),
      ground arith,
      ground (arith, h, lookup-insert sess sess new s.sessions, bytes_eq_iff sess sess),
    )

-- A ticket is handed out only for a token that was stored for that very device and has not run
-- out; it is then valid for that device and for no other.
pub redeem_pairing_sound :
    (now : ℕ) (device_id token other : Bytes) (random : Option Bytes) (s : Store) (ack : PairAck)
    → (redeem_pairing now device_id token random s).1 ≡ redeem_ok ack
    → (ent : PairingEntry) × (lookup token s.pairing ≡ some ent)
      × (ent.device_id ≡ device_id)
      × (now ≤ ent.expires_at)
      × (validate_session other ack.session_token (redeem_pairing now device_id token random s).0
          ≡ bytes_eq device_id other)
unfolding redeem_pairing validate_session
redeem_pairing_sound now device_id token other random s ack h =
    redeem_entry_sound now device_id token other random (lookup token s.pairing) s ack h
