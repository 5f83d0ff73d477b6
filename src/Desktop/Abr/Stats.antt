-- ===== src/Desktop/Abr/Stats.antt =====
-- `OnStatsSample` of internal/desktop/abr.go: what a report of the client does to the targets.
pub mod Locked
pub mod Within
pub mod Recovery
use runeverything.Desktop.Abr.{
  AbrConfig, AbrController, even, cap_bitrate_to_receive, step_down_rung, step_up_rung, shrink_res,
}
use runeverything.Base.{
  ℕ, ◌+◌, ◌-◌, ◌*◌, ◌/◌, min, max, Bool, true, false, not, ◌&&◌, ◌||◌, Option, none, some, ltb, leb,
  ◌==◌, if◌then◌else◌, length,
}
use runeverything.Base.Float64.{Float64}

pub record StatsSample (F : Type 0) : Type 0 where
  pub rtt_ms : ℕ
  pub loss_pct : F
  pub want_keyframe : Bool
  pub recv_kbps : ℕ
  pub jitter_ms : ℕ
  pub decode_delay_ms : ℕ
  pub stall : Bool
  pub stream_fps : F

abbrev pub millisecond : ℕ
millisecond = 1000000

-- The kind of window that a sample is.
pub data Window : Type 0 where
  worse_window bad_window good_window fair_window : Window

unfoldable pub since : ℕ → Option ℕ → ℕ → Bool
since now none gap = true
since now (some last) gap = leb gap (now - last)

module _ {F : Type 0} ⦃fl : Float64 F⦄ where
  -- `x > n` on float64
  abbrev pub above : F → ℕ → Bool
  above x n = fl.lt (fl.of_int n) x

  abbrev pub res_locked : AbrConfig F → Bool
  res_locked cfg =
      (ltb 0 cfg.max_width && leb cfg.max_width cfg.min_width)
      && (ltb 0 cfg.max_height && leb cfg.max_height cfg.min_height)

  abbrev pub use_ladder : AbrConfig F → Bool
  use_ladder cfg = not (res_locked cfg) && not (length cfg.ladder == 0)

  unfoldable pub eff_loss : StatsSample F → F
  eff_loss s = if s.stall && fl.lt s.loss_pct (fl.of_int 8) then fl.of_int 8 else s.loss_pct

  -- The client gets less than 7/10 of the target while it shows frames enough to need it.
  unfoldable pub bw_pressure : StatsSample F → AbrController F → Bool
  bw_pressure s a =
      let demand = fl.mul (fl.of_int a.fps) (fl.div (fl.of_int 6) (fl.of_int 10)) in
      let min_demand = if fl.lt demand (fl.of_int 5) then fl.of_int 5 else demand in
      (not (fl.lt s.stream_fps min_demand) && (ltb 0 s.recv_kbps && ltb 800 a.bitrate_k))
      && ltb s.recv_kbps (a.bitrate_k * 7 / 10)

  unfoldable pub on_worse : StatsSample F → AbrController F → AbrController F
  on_worse s a =
      let streak = a.cut_streak + 1 in
      let factor = if leb 3 streak then 5 else 6 in
      let cut = record a {
        cut_streak = streak;
        bitrate_k = max a.cfg.min_bitrate_k (a.bitrate_k * factor / 10);
      } in
      let slow = record (cap_bitrate_to_receive s.recv_kbps cut) {
        fps = max a.cfg.min_fps (a.fps - 5);
      } in
      let sized =
        if use_ladder a.cfg
        then step_down_rung slow
        else (if res_locked a.cfg then slow else shrink_res 3 4 slow) in
      record sized { want_key = true }

  unfoldable pub on_bad : StatsSample F → AbrController F → AbrController F
  on_bad s a =
      let streak = a.cut_streak + 1 in
      let cut = record a {
        cut_streak = streak;
        bitrate_k = max a.cfg.min_bitrate_k (a.bitrate_k * 8 / 10);
      } in
      let slow = record (cap_bitrate_to_receive s.recv_kbps cut) {
        fps = max a.cfg.min_fps (a.fps - 2);
      } in
      if leb 2 streak && (above (eff_loss s) 8 || ltb 70 s.jitter_ms)
      then (if use_ladder a.cfg
          then step_down_rung slow
          else (if res_locked a.cfg then slow else shrink_res 7 8 slow))
      else slow

  unfoldable pub on_good : AbrController F → AbrController F
  on_good a =
      let up = record a {
        cut_streak = 0;
        bitrate_k = min a.cfg.max_bitrate_k (a.bitrate_k * 105 / 100 + 50);
        fps = min a.cfg.max_fps (a.fps + 1);
      } in
      let roomy = ltb (a.cfg.min_bitrate_k * 2) up.bitrate_k in
      let max_h = if a.cfg.max_height == 0 then a.cfg.max_width * 9 / 16 else a.cfg.max_height in
      if use_ladder a.cfg && roomy
      then step_up_rung up
      else (if (not (res_locked a.cfg) && not (use_ladder a.cfg))
            && (ltb a.width a.cfg.max_width && roomy)
          then record up {
            width = min a.cfg.max_width (a.width + 40);
            height = min max_h (a.height + 24);
          }
          else up)

  unfoldable pub on_fair : AbrController F → AbrController F
  on_fair a = record a { cut_streak = a.cut_streak - 1 }

  unfoldable pub settle : AbrController F → AbrController F
  settle a =
      let w = if res_locked a.cfg then a.cfg.max_width else a.width in
      let h = if res_locked a.cfg then a.cfg.max_height else a.height in
      record a { width = even w; height = even h }

  unfoldable pub window_of : StatsSample F → AbrController F → Window
  unfolding eff_loss bw_pressure
  window_of s a =
      let loss = eff_loss s in
      let pressure = bw_pressure s a in
      if above loss 12 || (s.stall || (pressure && above loss 3))
      then worse_window
      else if above loss 5 || pressure
      then bad_window
      else if fl.lt loss (fl.of_int 1) && (not s.stall && not pressure)
      then good_window
      else fair_window

  unfoldable pub on_window : Window → StatsSample F → AbrController F → AbrController F
  on_window worse_window s a = on_worse s a
  on_window bad_window s a = on_bad s a
  on_window good_window s a = on_good a
  on_window fair_window s a = on_fair a

  -- What is noted of every sample.
  unfoldable pub note : StatsSample F → AbrController F → AbrController F
  note s a = record a {
    last_rtt = s.rtt_ms;
    last_loss = s.loss_pct;
    last_jit = s.jitter_ms;
    last_kbps = s.recv_kbps;
    want_key = a.want_key || (s.want_keyframe || s.stall);
  }

  -- The sample comes after the hold and long enough after the last one that was acted on.
  unfoldable pub is_due : ℕ → StatsSample F → AbrController F → Bool
  unfolding since
  is_due now s a =
      let gap = if s.stall || above s.loss_pct 12 then 250 * millisecond else 500 * millisecond in
      leb a.hold_until now && since now a.last_adj gap

  unfoldable pub on_stats_sample : ℕ → StatsSample F → AbrController F → AbrController F
  on_stats_sample now s a =
      let noted = note s a in
      if is_due now s a
      then settle (on_window (window_of s a) s (record noted { last_adj = some now }))
      else noted

  -- The older report, without the newer fields.
  unfoldable pub on_stats : ℕ → ℕ → F → Bool → AbrController F → AbrController F
  on_stats now rtt_ms loss_pct want_key a =
      on_stats_sample now
        (record {
          rtt_ms = rtt_ms;
          loss_pct = loss_pct;
          want_keyframe = want_key;
          recv_kbps = 0;
          jitter_ms = 0;
          decode_delay_ms = 0;
          stall = false;
          stream_fps = fl.of_int 0;
        })
        a
