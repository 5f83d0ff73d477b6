-- ===== src/Desktop/Abr/Stats/Within.antt =====
-- The rates of internal/desktop/abr.go stay between the limits of the configuration.
use runeverything.Desktop.Abr.Stats.Locked.{on_all_stats}
use runeverything.Desktop.Abr.Stats.{
  is_due, settle, window_of, note, on_stats_sample, above, eff_loss, StatsSample, Window,
  worse_window, bad_window, good_window, fair_window, on_worse, on_bad, on_good, on_fair, on_window,
  res_locked, use_ladder,
}
use runeverything.Desktop.Abr.{
  AbrConfig, size_for_rung, cap_bitrate_to_receive, step_down_rung, step_up_rung, shrink_res,
  AbrController, apply_rung_bitrate, to_rung,
}
use runeverything.Base.{
  ℕ, ◌+◌, ◌-◌, ◌*◌, ◌/◌, ◌≤◌, min, max, ◌≡◌, refl, sym, inl, inr, not, ◌&&◌, ◌||◌, some, List, [],
  ◌∷◌, arith, ltb, leb, ◌==◌, if◌then◌else◌, Bool-cases, length,
}
use runeverything.Base.Float64.{Float64}

module _ {F : Type 0} ⦃fl : Float64 F⦄ where
  pub record IsWithin (a : AbrController F) : Type 0 where
    pub bitrate_limits : a.cfg.min_bitrate_k ≤ a.cfg.max_bitrate_k
    pub fps_limits : a.cfg.min_fps ≤ a.cfg.max_fps
    pub bitrate_low : a.cfg.min_bitrate_k ≤ a.bitrate_k
    pub bitrate_high : a.bitrate_k ≤ a.cfg.max_bitrate_k
    pub fps_low : a.cfg.min_fps ≤ a.fps
    pub fps_high : a.fps ≤ a.cfg.max_fps

  -- The rates and the configuration are all that counts.
  same_rates :
      {a b : AbrController F}
      → a.cfg ≡ b.cfg
      → a.fps ≡ b.fps
      → a.bitrate_k ≡ b.bitrate_k
      → IsWithin a
      → IsWithin b
  same_rates ce fe be v = record {
    bitrate_limits = rw (sym ce) v.bitrate_limits;
    fps_limits = rw (sym ce) v.fps_limits;
    bitrate_low = rw (sym ce, sym be) v.bitrate_low;
    bitrate_high = rw (sym ce, sym be) v.bitrate_high;
    fps_low = rw (sym ce, sym fe) v.fps_low;
    fps_high = rw (sym ce, sym fe) v.fps_high;
  }

  apply_rung_bitrate-IsWithin : (a : AbrController F) → IsWithin a → IsWithin (apply_rung_bitrate a)
  unfolding apply_rung_bitrate
  apply_rung_bitrate-IsWithin a v = ground arith

  to_rung-IsWithin : (rung : ℕ) (a : AbrController F) → IsWithin a → IsWithin (to_rung rung a)
  unfolding to_rung
  to_rung-IsWithin rung a v =
      let (w, h) = size_for_rung rung (record a { rung = rung }) in
      let b : AbrController F = record a { rung = rung; width = w; height = h } in
      let fit : IsWithin b = same_rates {a = a} refl refl refl v in
      same_rates {a = apply_rung_bitrate b} refl refl refl (apply_rung_bitrate-IsWithin b fit)

  step_down_rung-IsWithin : (a : AbrController F) → IsWithin a → IsWithin (step_down_rung a)
  unfolding step_down_rung
  step_down_rung-IsWithin a v = elim (Bool-cases (leb (length a.cfg.ladder) (a.rung + 1))) [
    | inl last ↦ rw last v
    | inr more ↦ rw more (to_rung-IsWithin (a.rung + 1) a v)
  ]

  step_up_rung-IsWithin : (a : AbrController F) → IsWithin a → IsWithin (step_up_rung a)
  unfolding step_up_rung
  step_up_rung-IsWithin a v = elim (Bool-cases (a.rung == 0)) [
    | inl top ↦ rw top v
    | inr below ↦ rw below (to_rung-IsWithin (a.rung - 1) a v)
  ]

  shrink_res-IsWithin :
      (num den : ℕ) (a : AbrController F) → IsWithin a → IsWithin (shrink_res num den a)
  unfolding shrink_res
  shrink_res-IsWithin num den a v = same_rates {a = a} refl refl refl v

  resized-IsWithin :
      (num den : ℕ) (a : AbrController F) (cfg : AbrConfig F)
      → IsWithin a
      → IsWithin (
          if use_ladder cfg
          then step_down_rung a
          else (if res_locked cfg then a else shrink_res num den a))
  resized-IsWithin num den a cfg v = elim (Bool-cases (use_ladder cfg)) [
    | inl ladder ↦ rw ladder (step_down_rung-IsWithin a v)
    | inr free ↦ elim (Bool-cases (res_locked cfg)) [
      | inl locked ↦ rw (free, locked) v
      | inr open_size ↦ rw (free, open_size) (shrink_res-IsWithin num den a v)
    ]
  ]

  -- The cut of both kinds of bad window, to `k` and by `n` frames a second.
  cut_rates-IsWithin :
      (k n recv_kbps streak : ℕ) (a : AbrController F)
      → k ≤ a.bitrate_k
      → IsWithin a
      → IsWithin
          (record (cap_bitrate_to_receive recv_kbps
            (record a { cut_streak = streak; bitrate_k = max a.cfg.min_bitrate_k k })) {
              fps = max a.cfg.min_fps (a.fps - n);
            })
  unfolding cap_bitrate_to_receive
  cut_rates-IsWithin k n recv_kbps streak a small v =
      ground (
        arith, v.bitrate_low, v.bitrate_high, v.bitrate_limits, v.fps_limits, v.fps_low, v.fps_high,
      )

  on_good-IsWithin : (a : AbrController F) → IsWithin a → IsWithin (on_good a)
  unfolding on_good
  on_good-IsWithin a v =
      let up : AbrController F = record a {
        cut_streak = 0;
        bitrate_k = min a.cfg.max_bitrate_k (a.bitrate_k * 105 / 100 + 50);
        fps = min a.cfg.max_fps (a.fps + 1);
      } in
      let grown : IsWithin up =
        ground (arith, v.bitrate_low, v.bitrate_limits, v.fps_low, v.fps_limits) in
      let roomy = ltb (a.cfg.min_bitrate_k * 2) up.bitrate_k in
      elim (Bool-cases (use_ladder a.cfg && roomy)) [
        | inl climb ↦ rw climb (step_up_rung-IsWithin up grown)
        | inr stay ↦
            elim (Bool-cases (
              (not (res_locked a.cfg) && not (use_ladder a.cfg))
              && (ltb a.width a.cfg.max_width && roomy))) [
                | inl widen ↦ rw (stay, widen) (same_rates {a = up} refl refl refl grown)
                | inr keep ↦ rw (stay, keep) grown
              ]
      ]

  on_window-IsWithin :
      (w : Window) (s : StatsSample F) (a : AbrController F)
      → IsWithin a
      → IsWithin (on_window w s a)
  unfolding on_window on_worse on_bad on_good on_fair
  on_window-IsWithin worse_window s a v =
      let factor = if leb 3 (a.cut_streak + 1) then 5 else 6 in
      let k = a.bitrate_k * factor / 10 in
      let less : k ≤ a.bitrate_k = ground arith in
      let slow = cut_rates-IsWithin k 5 s.recv_kbps (a.cut_streak + 1) a less v in
      same_rates {a = _} refl refl refl (resized-IsWithin 3 4 _ a.cfg slow)
  on_window-IsWithin bad_window s a v =
      let k = a.bitrate_k * 8 / 10 in
      let slow = cut_rates-IsWithin k 2 s.recv_kbps (a.cut_streak + 1) a (omega arith) v in
      elim (Bool-cases (leb 2 (a.cut_streak + 1) && (above (eff_loss s) 8 || ltb 70 s.jitter_ms))) [
        | inl lasting ↦ rw lasting (resized-IsWithin 7 8 _ a.cfg slow)
        | inr once ↦ rw once slow
      ]
  on_window-IsWithin good_window s a v = on_good-IsWithin a v
  on_window-IsWithin fair_window s a v = same_rates {a = a} refl refl refl v

  on_stats_sample-IsWithin :
      (now : ℕ) (s : StatsSample F) (a : AbrController F)
      → IsWithin a
      → IsWithin (on_stats_sample now s a)
  unfolding on_stats_sample note settle
  on_stats_sample-IsWithin now s a v =
      let noted : AbrController F = record (note s a) { last_adj = some now } in
      let fit : IsWithin noted = same_rates {a = a} refl refl refl v in
      elim (Bool-cases (is_due now s a)) [
        | inl timely ↦ rw timely (
            same_rates {a = on_window (window_of s a) s noted} refl refl refl
              (on_window-IsWithin (window_of s a) s noted fit))
        | inr early ↦ rw early (same_rates {a = a} refl refl refl v)
      ]

  -- Where the limits of the configuration are in order and the first rates are between them, every
  -- report leaves the bitrate and the frame rate between them, on every rung of the ladder.
  pub on_all_stats-IsWithin :
      (xs : List (ℕ × StatsSample F)) (a : AbrController F)
      → IsWithin a
      → IsWithin (on_all_stats xs a)
  unfolding on_all_stats
  on_all_stats-IsWithin [] a v = v
  on_all_stats-IsWithin ((now, s) ∷ xs) a v =
      on_all_stats-IsWithin xs _ (on_stats_sample-IsWithin now s a v)
