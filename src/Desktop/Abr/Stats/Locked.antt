-- ===== src/Desktop/Abr/Stats/Locked.antt =====
-- The size that an OPEN of internal/desktop/abr.go settles on stays, whatever the client reports.
use runeverything.Desktop.Abr.Stats.{
  is_due, window_of, worse_window, bad_window, good_window, fair_window, settle, note, StatsSample,
  Window, res_locked, on_worse, on_bad, on_good, on_fair, on_window, on_stats_sample,
}
use runeverything.Desktop.Abr.{
  new_sized, open_sized, AbrConfig, lock_open_pixels, new_abr, apply_open_target, AbrController,
  even, cap_bitrate_to_receive,
}
use runeverything.Base.{
  ℕ, ◌+◌, ◌*◌, ◌/◌, ◌%◌, ◌<◌, max, ◌≡◌, refl, ◌∙◌, inl, inr, true, some, List, [], ◌∷◌, arith, leb,
  if◌then◌else◌, Bool-cases,
}
use runeverything.Base.Float64.{Float64}

even_again : (n : ℕ) → even (even n) ≡ even n
even_again n = omega arith

module _ {F : Type 0} ⦃fl : Float64 F⦄ where
  -- The reports of a session, each with the time at which it is looked at.
  unfoldable pub on_all_stats : List (ℕ × StatsSample F) → AbrController F → AbrController F
  on_all_stats [] a = a
  on_all_stats ((now, s) ∷ xs) a = on_all_stats xs (on_stats_sample now s a)

  -- Both limits of each dimension are the size, which is even and not 0.
  pub record IsLocked (a : AbrController F) : Type 0 where
    pub width_pos : 0 < a.width
    pub height_pos : 0 < a.height
    pub width_even : even a.width ≡ a.width
    pub height_even : even a.height ≡ a.height
    pub min_width : a.cfg.min_width ≡ a.width
    pub max_width : a.cfg.max_width ≡ a.width
    pub min_height : a.cfg.min_height ≡ a.height
    pub max_height : a.cfg.max_height ≡ a.height

  -- Nothing of the configuration and of the size is different.
  pub record SameSize (a b : AbrController F) : Type 0 where
    pub cfg_eq : a.cfg ≡ b.cfg
    pub width_eq : a.width ≡ b.width
    pub height_eq : a.height ≡ b.height

  IsLocked-res_locked : (a : AbrController F) → IsLocked a → res_locked a.cfg ≡ true
  IsLocked-res_locked a v =
      ground
        (arith, v.width_pos, v.min_width, v.max_width, v.height_pos, v.min_height, v.max_height)

  cap_bitrate_to_receive-SameSize :
      (k : ℕ) (a : AbrController F) → SameSize (cap_bitrate_to_receive k a) a
  unfolding cap_bitrate_to_receive
  cap_bitrate_to_receive-SameSize k a = ground arith

  on_window-SameSize :
      (w : Window) (s : StatsSample F) (a : AbrController F)
      → res_locked a.cfg ≡ true
      → SameSize (on_window w s a) a
  unfolding on_window on_worse on_bad on_good on_fair
  on_window-SameSize worse_window s a h =
      let factor = if leb 3 (a.cut_streak + 1) then 5 else 6 in
      let c = cap_bitrate_to_receive-SameSize s.recv_kbps (record a {
        cut_streak = a.cut_streak + 1;
        bitrate_k = max a.cfg.min_bitrate_k (a.bitrate_k * factor / 10);
      }) in
      ground (arith, c)
  on_window-SameSize bad_window s a h =
      let c = cap_bitrate_to_receive-SameSize s.recv_kbps (record a {
        cut_streak = a.cut_streak + 1;
        bitrate_k = max a.cfg.min_bitrate_k (a.bitrate_k * 8 / 10);
      }) in
      ground (arith, c)
  on_window-SameSize good_window s a h = ground arith
  on_window-SameSize fair_window s a h = record { cfg_eq = refl; width_eq = refl; height_eq = refl }

  SameSize-IsLocked : (a b : AbrController F) → IsLocked a → SameSize b a → IsLocked b
  SameSize-IsLocked a b v same = record {
    width_pos = rw same.width_eq v.width_pos;
    height_pos = rw same.height_eq v.height_pos;
    width_even = rw same.width_eq v.width_even;
    height_even = rw same.height_eq v.height_even;
    min_width = rw (same.cfg_eq, same.width_eq) v.min_width;
    max_width = rw (same.cfg_eq, same.width_eq) v.max_width;
    min_height = rw (same.cfg_eq, same.height_eq) v.min_height;
    max_height = rw (same.cfg_eq, same.height_eq) v.max_height;
  }

  settle-SameSize : (b : AbrController F) → IsLocked b → SameSize (settle b) b
  unfolding settle
  settle-SameSize b v =
      let locked = IsLocked-res_locked b v in
      record {
        cfg_eq = refl;
        width_eq = ground (arith, locked, v.max_width, v.width_even);
        height_eq = ground (arith, locked, v.max_height, v.height_even);
      }

  SameSize-trans : (a b c : AbrController F) → SameSize a b → SameSize b c → SameSize a c
  SameSize-trans a b c x y = record {
    cfg_eq = x.cfg_eq ∙ y.cfg_eq;
    width_eq = x.width_eq ∙ y.width_eq;
    height_eq = x.height_eq ∙ y.height_eq;
  }

  pub on_stats_sample-SameSize :
      (now : ℕ) (s : StatsSample F) (a : AbrController F)
      → IsLocked a
      → SameSize (on_stats_sample now s a) a
  unfolding on_stats_sample note
  on_stats_sample-SameSize now s a v =
      let noted = record (note s a) { last_adj = some now } in
      let same : SameSize noted a =
        unfold note in record { cfg_eq = refl; width_eq = refl; height_eq = refl } in
      let w =
        on_window-SameSize (window_of s a) s noted
          (IsLocked-res_locked noted (SameSize-IsLocked a noted v same)) in
      let moved = SameSize-trans _ noted a w same in
      let after = settle-SameSize _ (SameSize-IsLocked a _ v moved) in
      elim (Bool-cases (is_due now s a)) [
        | inl timely ↦ rw timely (SameSize-trans _ _ a after moved)
        | inr early ↦ rw early (record { cfg_eq = refl; width_eq = refl; height_eq = refl })
      ]

  on_all_stats-SameSize :
      (xs : List (ℕ × StatsSample F)) (a : AbrController F)
      → IsLocked a
      → SameSize (on_all_stats xs a) a
  unfolding on_all_stats
  on_all_stats-SameSize [] a v = record { cfg_eq = refl; width_eq = refl; height_eq = refl }
  on_all_stats-SameSize ((now, s) ∷ xs) a v =
      let one = on_stats_sample-SameSize now s a v in
      SameSize-trans _ _ a (on_all_stats-SameSize xs _ (SameSize-IsLocked a _ v one)) one

  lock_open_pixels-IsLocked :
      (a : AbrController F)
      → even a.width ≡ a.width
      → even a.height ≡ a.height
      → 0 < a.width
      → 0 < a.height
      → IsLocked (lock_open_pixels a)
  unfolding lock_open_pixels
  lock_open_pixels-IsLocked a ew eh hw hh = record {
    width_pos = hw;
    height_pos = hh;
    width_even = ew;
    height_even = eh;
    min_width = ground arith;
    max_width = ground arith;
    min_height = ground arith;
    max_height = ground arith;
  }

  new_abr-IsLocked :
      (now width height fps bitrate_k : ℕ) (cfg : AbrConfig F)
      → (0 < (new_abr now cfg width height fps bitrate_k).width)
        × (0 < (new_abr now cfg width height fps bitrate_k).height)
      → IsLocked (new_abr now cfg width height fps bitrate_k)
  new_abr-IsLocked now width height fps bitrate_k cfg h =
      let a = new_sized cfg width height fps bitrate_k in
      let v =
        lock_open_pixels-IsLocked a (unfold new_sized in even_again _)
          (unfold new_sized in even_again _) (unfold new_abr lock_open_pixels in h.0)
          (unfold new_abr lock_open_pixels in h.1) in
      SameSize-IsLocked _ (new_abr now cfg width height fps bitrate_k) v
        (unfold new_abr in record { cfg_eq = refl; width_eq = refl; height_eq = refl })

  apply_open_target-IsLocked :
      (now width height fps bitrate_k : ℕ) (cfg : AbrConfig F) (a : AbrController F)
      → (0 < (apply_open_target now width height fps bitrate_k cfg a).width)
        × (0 < (apply_open_target now width height fps bitrate_k cfg a).height)
      → IsLocked (apply_open_target now width height fps bitrate_k cfg a)
  apply_open_target-IsLocked now width height fps bitrate_k cfg a h =
      let b = open_sized width height fps bitrate_k cfg a in
      let v =
        lock_open_pixels-IsLocked b (unfold open_sized in even_again _)
          (unfold open_sized in even_again _) (unfold apply_open_target lock_open_pixels in h.0)
          (unfold apply_open_target lock_open_pixels in h.1) in
      SameSize-IsLocked _ (apply_open_target now width height fps bitrate_k cfg a) v
        (unfold apply_open_target in record { cfg_eq = refl; width_eq = refl; height_eq = refl })

  -- A controller as an OPEN leaves it: made by it, or opened anew.
  pub data IsOpened : AbrController F → Type 0 where
    made :
        (now width height fps bitrate_k : ℕ) (cfg : AbrConfig F)
        → IsOpened (new_abr now cfg width height fps bitrate_k)
    opened_anew :
        (now width height fps bitrate_k : ℕ) (cfg : AbrConfig F) (a : AbrController F)
        → IsOpened (apply_open_target now width height fps bitrate_k cfg a)

  IsOpened-IsLocked :
      (a : AbrController F) → IsOpened a → (0 < a.width) × (0 < a.height) → IsLocked a
  IsOpened-IsLocked _ (made now width height fps bitrate_k cfg) h =
      new_abr-IsLocked now width height fps bitrate_k cfg h
  IsOpened-IsLocked _ (opened_anew now width height fps bitrate_k cfg a) h =
      apply_open_target-IsLocked now width height fps bitrate_k cfg a h

  -- A controller that an OPEN has made or opened anew, with a width and a height that are not 0: both
  -- are even, and whatever the client reports, the size and the configuration stay.
  pub open-SameSize :
      (a : AbrController F) (xs : List (ℕ × StatsSample F))
      → IsOpened a
      → 0 < a.width
      → 0 < a.height
      → SameSize (on_all_stats xs a) a × (a.width % 2 ≡ 0) × (a.height % 2 ≡ 0)
  open-SameSize a xs o w h =
      let v = IsOpened-IsLocked a o (w, h) in
      (on_all_stats-SameSize xs a v, omega (arith, v.width_even), omega (arith, v.height_even))
