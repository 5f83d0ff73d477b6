-- ===== src/Desktop/Abr/Stats/Recovery.antt =====
-- How internal/desktop/abr.go climbs again when the network is clean.
use runeverything.Desktop.Abr.Stats.Locked.{on_all_stats}
use runeverything.Desktop.Abr.Stats.{
  use_ladder, millisecond, is_due, StatsSample, good_window, res_locked, eff_loss, bw_pressure,
  on_good, settle, above, window_of, on_window, note, on_stats_sample, since,
}
use runeverything.Desktop.Abr.{AbrController}
use runeverything.Base.{
  ℕ, suc, ◌+◌, ◌*◌, ◌/◌, ◌≤◌, min, ◌≡◌, ◌⊎◌, inl, inr, refl, true, false, All, length, ◌&&◌, some,
  List, [], ◌∷◌, arith, ltb,
}
use runeverything.Base.Float64.{Float64}

module _ {F : Type 0} ⦃fl : Float64 F⦄ where
  -- A report without a stall, of less than 1 % of loss, and of no rate received or of one that is at
  -- least 7/10 of `top`.
  pub record IsClean (top : ℕ) (s : StatsSample F) : Type 0 where
    pub flowing : s.stall ≡ false
    pub low : fl.lt s.loss_pct (fl.of_int 1) ≡ true
    pub under_5 : above s.loss_pct 5 ≡ false
    pub under_12 : above s.loss_pct 12 ≡ false
    pub unpressed : (s.recv_kbps ≡ 0) ⊎ (top * 7 / 10 ≤ s.recv_kbps)

  -- The reports come every half second from `now` on.
  unfoldable pub half_seconds : ℕ → List (StatsSample F) → List (ℕ × StatsSample F)
  half_seconds now [] = []
  half_seconds now (s ∷ ss) = (now, s) ∷ half_seconds (now + 500 * millisecond) ss

  -- The controller is past its hold, its last adjustment half a second back, and its bitrate within
  -- the limit.
  pub record IsReady (now : ℕ) (a : AbrController F) : Type 0 where
    pub locked : res_locked a.cfg ≡ true
    pub rate : a.bitrate_k ≤ a.cfg.max_bitrate_k
    pub held : a.hold_until ≤ now
    pub gap : since now a.last_adj (500 * millisecond) ≡ true

  pub record Recovered (n : ℕ) (a b : AbrController F) : Type 0 where
    pub bitrate : min a.cfg.max_bitrate_k (a.bitrate_k + 50 * n) ≤ b.bitrate_k
    pub fps : min a.cfg.max_fps (a.fps + n) ≤ b.fps

  window_of-IsClean :
      (s : StatsSample F) (a : AbrController F)
      → IsClean a.cfg.max_bitrate_k s
      → a.bitrate_k ≤ a.cfg.max_bitrate_k
      → window_of s a ≡ good_window
  unfolding window_of eff_loss bw_pressure
  window_of-IsClean s a c rate =
      let free : (ltb 0 s.recv_kbps && ltb s.recv_kbps (a.bitrate_k * 7 / 10)) ≡ false =
        elim c.unpressed [ inl nothing ↦ ground arith | inr enough ↦ ground arith ] in
      ground (arith, free, c.flowing, c.low, c.under_5, c.under_12)

  is_due-IsClean :
      (now : ℕ) (s : StatsSample F) (a : AbrController F)
      → IsClean a.cfg.max_bitrate_k s
      → a.hold_until ≤ now
      → since now a.last_adj (500 * millisecond) ≡ true
      → is_due now s a ≡ true
  unfolding is_due
  is_due-IsClean now s a c held gap = ground (arith, c.flowing, c.under_12, gap)

  -- What a good window does when the size is locked.
  record Climbed (a b : AbrController F) : Type 0 where
    cfg_eq : b.cfg ≡ a.cfg
    bitrate : min a.cfg.max_bitrate_k (a.bitrate_k + 50) ≤ b.bitrate_k
    fps : min a.cfg.max_fps (a.fps + 1) ≤ b.fps
    hold_eq : b.hold_until ≡ a.hold_until
    adj_eq : b.last_adj ≡ a.last_adj
    rate : b.bitrate_k ≤ b.cfg.max_bitrate_k

  on_good-Climbed : (a : AbrController F) → res_locked a.cfg ≡ true → Climbed a (on_good a)
  unfolding on_good
  on_good-Climbed a locked =
      let climb : (use_ladder a.cfg
            && ltb (a.cfg.min_bitrate_k * 2)
                (min a.cfg.max_bitrate_k (a.bitrate_k * 105 / 100 + 50)))
          ≡ false =
        ground (arith, locked) in
      let more : a.bitrate_k ≤ a.bitrate_k * 105 / 100 = omega arith in
      ground (arith, climb, locked, more)

  clean_step : ℕ → StatsSample F → AbrController F → AbrController F
  clean_step now s a = settle (on_good (record (note s a) { last_adj = some now }))

  on_stats_sample-IsClean :
      (now : ℕ) (s : StatsSample F) (a : AbrController F)
      → IsClean a.cfg.max_bitrate_k s
      → IsReady now a
      → on_stats_sample now s a ≡ clean_step now s a
  unfolding on_stats_sample on_window clean_step
  on_stats_sample-IsClean now s a c v =
      rw (is_due-IsClean now s a c v.held v.gap, window_of-IsClean s a c v.rate, on_window) refl

  clean_step-Climbed :
      (now : ℕ) (s : StatsSample F) (a : AbrController F)
      → IsReady now a
      → Climbed (record a { last_adj = some now }) (clean_step now s a)
  unfolding clean_step note settle
  clean_step-Climbed now s a v =
      let c = on_good-Climbed (record (note s a) { last_adj = some now }) v.locked in
      record {
        cfg_eq = c.cfg_eq;
        bitrate = c.bitrate;
        fps = c.fps;
        hold_eq = c.hold_eq;
        adj_eq = c.adj_eq;
        rate = c.rate;
      }

  clean_step-IsReady :
      (now : ℕ) (s : StatsSample F) (a : AbrController F)
      → IsReady now a
      → IsReady (now + 500 * millisecond) (clean_step now s a)
  unfolding since
  clean_step-IsReady now s a v =
      let c = clean_step-Climbed now s a v in
      record {
        locked = rw c.cfg_eq v.locked;
        rate = c.rate;
        held = rw c.hold_eq (omega (arith, v.held));
        gap = rw c.adj_eq (ground arith);
      }

  -- When the size is locked, the hold of the last OPEN is over, the last adjustment half a second
  -- back and the bitrate within its limit: reports that come every half second, without a stall, of
  -- less than 1 % of loss, and of no rate received or of one of at least 7/10 of the limit of the
  -- bitrate, raise the bitrate by at least 50 kb/s each and the frame rate by 1, as far as the limits
  -- go, whatever else they say.
  pub on_all_stats-Recovered :
      (ss : List (StatsSample F)) (now : ℕ) (a : AbrController F)
      → IsReady now a
      → All (IsClean a.cfg.max_bitrate_k) ss
      → Recovered (length ss) a (on_all_stats (half_seconds now ss) a)
  unfolding on_all_stats half_seconds
  on_all_stats-Recovered [] now a v h = record { bitrate = omega arith; fps = omega arith }
  on_all_stats-Recovered (s ∷ ss) now a v h =
      let c = clean_step-Climbed now s a v in
      let r =
        on_all_stats-Recovered ss (now + 500 * millisecond) (clean_step now s a)
          (clean_step-IsReady now s a v) (rw c.cfg_eq h.1) in
      let all : Recovered (suc (length ss)) a
          (on_all_stats (half_seconds (now + 500 * millisecond) ss) (on_stats_sample now s a)) =
        rw (on_stats_sample-IsClean now s a h.0 v) (record {
          bitrate = ground (arith, c.cfg_eq, c.bitrate, r.bitrate);
          fps = ground (arith, c.cfg_eq, c.fps, r.fps);
        }) in
      all
