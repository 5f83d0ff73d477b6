-- ===== src/Reudp/Congestion/Bounds.antt =====
-- The limits of internal/reudp/congestion.go: the window and the pacing gap stay in their ranges.
use runeverything.Base.{ℕ, ◌*◌, ◌≤◌, ◌≡◌, false, List, [], ◌∷◌, arith}
use runeverything.Base.Float64.{Float64, FloatLaws}
use runeverything.Reudp.Congestion.{
  window, Congestion, microsecond, millisecond, new_congestion, boost_for_lan, on_send, on_ack,
  on_loss,
}

-- What the sender or the network can do to the controller.
pub data Event : Type 0 where
  lan : Event
  send : ℕ → Event
  acked : ℕ → ℕ → Event
  lost : Event

module _ {F : Type 0} ⦃fl : Float64 F⦄ where
  unfoldable pub apply : Congestion F → Event → Congestion F
  apply c lan = boost_for_lan c
  apply c (send now) = on_send now c
  apply c (acked n rtt) = on_ack n rtt c
  apply c lost = on_loss c

  unfoldable pub apply_all : Congestion F → List Event → Congestion F
  apply_all c [] = c
  apply_all c (x ∷ xs) = apply_all (apply c x) xs

  pub record IsBounded (c : Congestion F) : Type 0 where
    pub window_low : fl.lt c.cwnd (fl.of_int 2) ≡ false
    pub window_high : fl.lt (fl.of_int 512) c.cwnd ≡ false
    pub gap_low : 500 * microsecond ≤ c.pace_gap
    pub gap_high : c.pace_gap ≤ 20 * millisecond

module _ {F : Type 0} ⦃fl : Float64 F⦄ (laws : FloatLaws F) where
  open laws use {lt-of_int, to_int-of_int, to_int-mono, le_trans, le-add, half-le}

  new_congestion-IsBounded : IsBounded (new_congestion {F = F})
  unfolding new_congestion
  new_congestion-IsBounded = ground (
    arith,
    lt-of_int 8 2 (omega arith) (omega arith),
    lt-of_int 512 8 (omega arith) (omega arith),
  )

  apply-IsBounded : (c : Congestion F) (x : Event) → IsBounded c → IsBounded (apply c x)
  unfolding apply boost_for_lan on_send on_ack on_loss
  apply-IsBounded c lan b = ground (arith, lt-of_int 128 2, lt-of_int 512 128)
  apply-IsBounded c (send now) b = ground arith
  apply-IsBounded c (acked n rtt) b = ground (
    arith,
    lt-of_int 512 2,
    lt-of_int 512 512,
    le-add c.cwnd (fl.of_int n),
    le-add c.cwnd (fl.div (fl.of_int n) c.cwnd),
    le_trans (fl.of_int 2) c.cwnd (fl.add c.cwnd (fl.of_int n)),
    le_trans (fl.of_int 2) c.cwnd (fl.add c.cwnd (fl.div (fl.of_int n) c.cwnd)),
  )
  apply-IsBounded c lost b = ground (
    arith,
    lt-of_int 2 2,
    lt-of_int 512 2,
    half-le c.cwnd,
    le_trans (fl.div c.cwnd (fl.of_int 2)) c.cwnd (fl.of_int 512),
  )

  apply_all-IsBounded :
      (c : Congestion F) (xs : List Event) → IsBounded c → IsBounded (apply_all c xs)
  unfolding apply_all
  apply_all-IsBounded c [] b = b
  apply_all-IsBounded c (x ∷ xs) b = apply_all-IsBounded (apply c x) xs (apply-IsBounded c x b)

  IsBounded-window : (c : Congestion F) → IsBounded c → (2 ≤ window c) × (window c ≤ 512)
  unfolding window
  IsBounded-window c b = ground (
    arith,
    to_int-of_int 2 (omega arith),
    to_int-of_int 512 (omega arith),
    to_int-mono (fl.of_int 2) c.cwnd,
    to_int-mono c.cwnd (fl.of_int 512),
  )

  -- Under the laws of float64, whatever is sent, acknowledged and lost since the start, the window is 2 to 512 packets and
  -- the pacing gap 0.5 to 20 milliseconds.
  pub window_bounds :
      (xs : List Event)
      → (2 ≤ window (apply_all (new_congestion {F = F}) xs))
        × (window (apply_all (new_congestion {F = F}) xs) ≤ 512)
        × (500 * microsecond ≤ (apply_all (new_congestion {F = F}) xs).pace_gap)
        × ((apply_all (new_congestion {F = F}) xs).pace_gap ≤ 20 * millisecond)
  window_bounds xs =
      let b = apply_all-IsBounded new_congestion xs new_congestion-IsBounded in
      let (lo, hi) = IsBounded-window (apply_all (new_congestion {F = F}) xs) b in
      (lo, hi, b.gap_low, b.gap_high)
