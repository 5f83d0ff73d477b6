-- ===== src/Reudp/Congestion.antt =====
-- internal/reudp/congestion.go: the window and the pacing of the sender. Times are nanoseconds.
pub mod Bounds
use runeverything.Base.{
  ℕ, ◌+◌, ◌-◌, ◌*◌, Bool, true, false, ◌&&◌, ◌||◌, Option, none, some, ltb, leb, ◌==◌,
  if◌then◌else◌,
}
use runeverything.Base.Float64.{Float64}

abbrev pub microsecond : ℕ
microsecond = 1000

abbrev pub millisecond : ℕ
millisecond = 1_000_000

pub record Congestion (F : Type 0) : Type 0 where
  pub cwnd : F
  pub ssthresh : F
  pub in_flight : ℕ
  pub min_rtt : ℕ
  -- `none` is the zero time.
  pub last_send : Option ℕ
  pub pace_gap : ℕ

too_soon : ℕ → Option ℕ → ℕ → Bool
too_soon now none gap = false
too_soon now (some last) gap = ltb (now - last) gap

module _ {F : Type 0} ⦃fl : Float64 F⦄ where
  unfoldable pub new_congestion : Congestion F
  new_congestion = record {
    cwnd = fl.of_int 8;
    ssthresh = fl.of_int 64;
    in_flight = 0;
    min_rtt = 50 * millisecond;
    last_send = none;
    pace_gap = 2 * millisecond;
  }

  unfoldable pub boost_for_lan : Congestion F → Congestion F
  boost_for_lan c = record c {
    cwnd = if fl.lt c.cwnd (fl.of_int 128) then fl.of_int 128 else c.cwnd;
    ssthresh = if fl.lt c.ssthresh (fl.of_int 256) then fl.of_int 256 else c.ssthresh;
    min_rtt = 8 * millisecond;
    pace_gap = 500 * microsecond;
  }

  unfoldable pub can_send : ℕ → Congestion F → Bool
  unfolding too_soon
  can_send now c =
      if leb (fl.to_int c.cwnd) c.in_flight
      then false
      else if too_soon now c.last_send c.pace_gap
      then false
      else true

  unfoldable pub on_send : ℕ → Congestion F → Congestion F
  on_send now c = record c { in_flight = c.in_flight + 1; last_send = some now }

  -- Slow start below the threshold, congestion avoidance above it, and never more than 512.
  grow : ℕ → Congestion F → F
  grow n c =
      let cwnd =
        if fl.lt c.cwnd c.ssthresh
        then fl.add c.cwnd (fl.of_int n)
        else fl.add c.cwnd (fl.div (fl.of_int n) c.cwnd) in
      if fl.lt (fl.of_int 512) cwnd then fl.of_int 512 else cwnd

  pace : ℕ → F → ℕ → ℕ
  pace min_rtt cwnd gap =
      if ltb 0 min_rtt && fl.lt (fl.of_int 0) cwnd
      then (let g = fl.to_int (fl.div (fl.of_int min_rtt) cwnd) in
          let g' = if ltb g millisecond then millisecond else g in
          if ltb (20 * millisecond) g' then 20 * millisecond else g')
      else gap

  unfoldable pub on_ack : ℕ → ℕ → Congestion F → Congestion F
  unfolding grow pace
  on_ack n rtt c =
      let min_rtt = if ltb 0 rtt && (c.min_rtt == 0 || ltb rtt c.min_rtt) then rtt else c.min_rtt in
      let cwnd = grow n c in
      record c {
        in_flight = if ltb c.in_flight n then 0 else c.in_flight - n;
        min_rtt = min_rtt;
        cwnd = cwnd;
        pace_gap = pace min_rtt cwnd c.pace_gap;
      }

  unfoldable pub on_loss : Congestion F → Congestion F
  on_loss c =
      let half = fl.div c.cwnd (fl.of_int 2) in
      let ssthresh = if fl.lt half (fl.of_int 2) then fl.of_int 2 else half in
      record c { ssthresh = ssthresh; cwnd = ssthresh; in_flight = 0 }

  unfoldable pub window : Congestion F → ℕ
  window c = fl.to_int c.cwnd
