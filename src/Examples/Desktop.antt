-- ===== src/Examples/Desktop.antt =====
-- A concrete session for internal/desktop.
use runeverything.Desktop.Abr.Stats.Locked.{on_all_stats, SameSize, opened_anew, open-SameSize}
use runeverything.Desktop.Abr.Stats.Within.{IsWithin, on_all_stats-IsWithin}
use runeverything.Desktop.Abr.Stats.Recovery.{
  half_seconds, IsClean, IsReady, Recovered, on_all_stats-Recovered,
}
use runeverything.Desktop.Abr.Stats.{StatsSample, since}
use runeverything.Desktop.Abr.{
  AbrConfig, AbrController, new_abr, new_sized, fresh_abr, trim_ladder_to_open, lock_open_pixels,
  apply_open_target, open_sized, open_target, default_abr, or_else, on_rung, even_size,
}
use runeverything.Base.{ℕ, ◌%◌, ◌≡◌, inl, inr, false, true, false, List, [], ◌∷◌, arith, refl}
use runeverything.Base.Float64.{whole}

abbrev cfg : AbrConfig ℕ
cfg = record (default_abr {F = ℕ}) { ladder = [] }

-- A session at 1280 × 720.
abbrev session : AbrController ℕ
session = new_abr 0 cfg 1280 720 30 4000

-- A client that loses a fifth of the datagrams and stands still.
abbrev lossy : StatsSample ℕ
lossy = record {
  rtt_ms = 90;
  loss_pct = 20;
  want_keyframe = false;
  recv_kbps = 900;
  jitter_ms = 80;
  decode_delay_ms = 0;
  stall = true;
  stream_fps = 6;
}

abbrev reports : List (ℕ × StatsSample ℕ)
reports = (6000000000, lossy) ∷ (7000000000, lossy) ∷ []

-- Opened anew at the same size.
abbrev reopened : AbrController ℕ
reopened = apply_open_target 0 1280 720 30 4000 cfg session

open-SameSize_example :
    SameSize (on_all_stats reports reopened) reopened
    × (reopened.width % 2 ≡ 0)
    × (reopened.height % 2 ≡ 0)
unfolding new_abr apply_open_target lock_open_pixels new_sized open_sized on_rung even_size
    trim_ladder_to_open fresh_abr open_target or_else default_abr
open-SameSize_example =
    open-SameSize reopened reports (opened_anew 0 1280 720 30 4000 cfg session) (omega arith)
      (omega arith)

-- Half-way down the ladder, and free to change its size.
abbrev playing : AbrController ℕ
playing =
    record (fresh_abr (record (default_abr {F = ℕ}) { ladder = 2 ∷ 1 ∷ [] }) 960 540 24 2000) {
      rung = 1;
    }

-- Both limits are the size.
abbrev locked : AbrController ℕ
locked =
    record (fresh_abr
      (record (default_abr {F = ℕ}) {
        min_width = 960;
        max_width = 960;
        min_height = 540;
        max_height = 540;
      })
      960 540 10 400) { hold_until = 5000000000 }

playing-IsWithin : IsWithin playing
unfolding default_abr fresh_abr or_else
playing-IsWithin = record {
  bitrate_limits = omega arith;
  fps_limits = omega arith;
  bitrate_low = omega arith;
  bitrate_high = omega arith;
  fps_low = omega arith;
  fps_high = omega arith;
}

on_all_stats-IsWithin_example : IsWithin (on_all_stats reports playing)
on_all_stats-IsWithin_example = on_all_stats-IsWithin reports playing playing-IsWithin

locked-IsReady : IsReady 6000000000 locked
unfolding default_abr fresh_abr or_else since
locked-IsReady = record { locked = refl; rate = omega arith; held = omega arith; gap = refl }

abbrev quiet : StatsSample ℕ
quiet = record {
  rtt_ms = 10;
  loss_pct = 0;
  want_keyframe = false;
  recv_kbps = 0;
  jitter_ms = 5;
  decode_delay_ms = 0;
  stall = false;
  stream_fps = 15;
}

-- Of the second report the rate received is known, and it is near the limit.
abbrev calm : List (StatsSample ℕ)
calm =
    quiet
    ∷ record quiet { recv_kbps = locked.cfg.max_bitrate_k; stream_fps = 24; rtt_ms = 40 }
    ∷ quiet
    ∷ []

quiet-IsClean : IsClean locked.cfg.max_bitrate_k quiet
quiet-IsClean = record {
  flowing = refl;
  low = refl;
  under_5 = refl;
  under_12 = refl;
  unpressed = inl refl;
}

steady-IsClean :
    IsClean locked.cfg.max_bitrate_k
      (record quiet { recv_kbps = locked.cfg.max_bitrate_k; stream_fps = 24; rtt_ms = 40 })
unfolding default_abr fresh_abr
steady-IsClean = record {
  flowing = refl;
  low = refl;
  under_5 = refl;
  under_12 = refl;
  unpressed = inr (omega arith);
}

on_all_stats-Recovered_example :
    Recovered 3 locked (on_all_stats (half_seconds 6000000000 calm) locked)
on_all_stats-Recovered_example =
    on_all_stats-Recovered calm 6000000000 locked locked-IsReady
      (quiet-IsClean, (steady-IsClean, (quiet-IsClean, tt)))
