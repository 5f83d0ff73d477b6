-- ===== src/Desktop/Abr.antt =====
-- internal/desktop/abr.go: the controller that adapts bitrate, frame rate and size to what a client
-- reports. A size, a rate or a delay that is not positive is 0; times are on one clock, in
-- nanoseconds. A ladder is a list of factors, the highest first.
pub mod Stats
use runeverything.Base.{
  ℕ, ◌+◌, ◌-◌, ◌*◌, ◌/◌, ◌%◌, min, max, Bool, true, false, not, ◌&&◌, ◌||◌, Option, none, some,
  List, [], ◌∷◌, ltb, leb, ◌==◌, if◌then◌else◌, length, get_or,
}
use runeverything.Base.Float64.{Float64}

pub record AbrConfig (F : Type 0) : Type 0 where
  pub min_fps : ℕ
  pub max_fps : ℕ
  pub min_width : ℕ
  pub max_width : ℕ
  pub min_height : ℕ
  pub max_height : ℕ
  pub min_bitrate_k : ℕ
  pub max_bitrate_k : ℕ
  pub native_width : ℕ
  pub native_height : ℕ
  pub ladder : List F

pub record AbrController (F : Type 0) : Type 0 where
  pub cfg : AbrConfig F
  pub fps : ℕ
  pub width : ℕ
  pub height : ℕ
  pub bitrate_k : ℕ
  pub want_key : Bool
  -- `none` is the zero time.
  pub last_adj : Option ℕ
  pub last_rtt : ℕ
  pub last_loss : F
  pub last_jit : ℕ
  pub last_kbps : ℕ
  pub cut_streak : ℕ
  pub rung : ℕ
  pub hold_until : ℕ

-- `x &^ 1`
abbrev pub even : ℕ → ℕ
even x = x - x % 2

-- `absInt(a - b)`
abbrev pub distance : ℕ → ℕ → ℕ
distance a b = (a - b) + (b - a)

abbrev pub hold : ℕ
hold = 5 * 1000000000

unfoldable pub or_else : ℕ → ℕ → ℕ
or_else a b = if ltb 0 a then a else b

-- The lower limit is applied before the upper one; 0 is no limit.
clamp : ℕ → ℕ → ℕ → ℕ
clamp lo hi x =
    let y = if ltb 0 lo && ltb x lo then lo else x in if ltb 0 hi && ltb hi y then hi else y

at_most : ℕ → ℕ → ℕ
at_most hi x = if ltb 0 hi then min hi x else x

-- `d < bestDist`; the first distance always is.
closer : ℕ → Option ℕ → Bool
closer d none = true
closer d (some old) = ltb d old

module _ {F : Type 0} ⦃fl : Float64 F⦄ where
  -- `int(float64(n)*scale + 0.5)`
  abbrev pub scaled : ℕ → F → ℕ
  scaled n scale =
      fl.to_int (fl.add (fl.mul (fl.of_int n) scale) (fl.div (fl.of_int 1) (fl.of_int 2)))

  unfoldable pub size_for_rung : ℕ → AbrController F → ℕ × ℕ
  unfolding or_else clamp
  size_for_rung rung a =
      if length a.cfg.ladder == 0
      then (a.width, a.height)
      else (let i = if leb (length a.cfg.ladder) rung then length a.cfg.ladder - 1 else rung in
          let scale = get_or a.cfg.ladder i (fl.of_int 0) in
          let ref_w = or_else (or_else a.cfg.native_width a.cfg.max_width) a.width in
          let ref_h = or_else (or_else a.cfg.native_height a.cfg.max_height) a.height in
          (
            even (clamp a.cfg.min_width a.cfg.max_width (scaled ref_w scale)),
            even (clamp a.cfg.min_height a.cfg.max_height (scaled ref_h scale)),
          ))

  unfoldable pub default_abr : AbrConfig F
  default_abr = record {
    min_fps = 5;
    max_fps = 30;
    min_width = 640;
    max_width = 15360;
    min_height = 360;
    max_height = 8640;
    min_bitrate_k = 300;
    max_bitrate_k = 300000;
    native_width = 0;
    native_height = 0;
    ladder =
        fl.of_int 1
        ∷ fl.div (fl.of_int 75) (fl.of_int 100)
        ∷ fl.div (fl.of_int 55) (fl.of_int 100)
        ∷ fl.div (fl.of_int 35) (fl.of_int 100)
        ∷ [];
  }

  -- The rungs whose width is at most `limit`.
  keep_rungs : ℕ → ℕ → List F → List F
  keep_rungs ref_w limit [] = []
  keep_rungs ref_w limit (s ∷ ss) =
      if leb (scaled ref_w s) limit
      then s ∷ keep_rungs ref_w limit ss
      else keep_rungs ref_w limit ss

  last_rung : List F → List F
  last_rung [] = []
  last_rung (s ∷ []) = s ∷ []
  last_rung (s ∷ t ∷ ss) = last_rung (t ∷ ss)

  some_rung : List F → List F → List F
  some_rung all [] = last_rung all
  some_rung all (s ∷ ss) = s ∷ ss

  unfoldable pub trim_ladder_to_open : AbrController F → AbrController F
  unfolding or_else keep_rungs some_rung last_rung
  trim_ladder_to_open a =
      if length a.cfg.ladder == 0 || (a.cfg.max_width == 0 || a.cfg.max_height == 0)
      then a
      else record a {
        cfg = record a.cfg {
          ladder = some_rung a.cfg.ladder (
              keep_rungs (or_else a.cfg.native_width a.cfg.max_width) (a.cfg.max_width + 2)
                a.cfg.ladder);
        };
      }

  -- The loop over the rungs from `i` on, with the best so far and its distance.
  nearest_from : List F → ℕ → ℕ → Option ℕ → ℕ → ℕ → AbrController F → ℕ
  unfolding size_for_rung closer
  nearest_from [] i best dist width height a = best
  nearest_from (s ∷ ss) i best dist width height a =
      let (rw, rh) = size_for_rung i a in
      let d = distance rw width + distance rh height in
      nearest_from ss (i + 1) (if closer d dist then i else best)
        (if closer d dist then some d else dist) width height a

  unfoldable pub nearest_rung : ℕ → ℕ → AbrController F → ℕ
  unfolding nearest_from
  nearest_rung width height a = nearest_from a.cfg.ladder 0 0 none width height a

  unfoldable pub lock_open_pixels : AbrController F → AbrController F
  lock_open_pixels a = record a {
    cfg = record a.cfg {
      min_width = if ltb 0 a.width then a.width else a.cfg.min_width;
      max_width = if ltb 0 a.width then a.width else a.cfg.max_width;
      min_height = if ltb 0 a.height then a.height else a.cfg.min_height;
      max_height = if ltb 0 a.height then a.height else a.cfg.max_height;
    };
  }

  unfoldable pub even_size : AbrController F → AbrController F
  even_size a = record a { width = even a.width; height = even a.height }

  -- The rung that fits the size that was opened, and its size, if there is a ladder.
  unfoldable pub on_rung : ℕ → ℕ → AbrController F → AbrController F
  unfolding nearest_rung size_for_rung
  on_rung width height a =
      let a' = record a { rung = nearest_rung width height a } in
      if length a.cfg.ladder == 0
      then a'
      else record a' { width = (size_for_rung a'.rung a').0; height = (size_for_rung a'.rung a').1 }

  -- The fields that are given, and the rest as zero.
  unfoldable pub fresh_abr : AbrConfig F → ℕ → ℕ → ℕ → ℕ → AbrController F
  unfolding or_else
  fresh_abr cfg width height fps bitrate_k = record {
    cfg = cfg;
    fps = or_else fps 15;
    width = width;
    height = height;
    bitrate_k = or_else bitrate_k 2500;
    want_key = false;
    last_adj = none;
    last_rtt = 0;
    last_loss = fl.of_int 0;
    last_jit = 0;
    last_kbps = 0;
    cut_streak = 0;
    rung = 0;
    hold_until = 0;
  }

  -- The controller before its pixels are locked.
  unfoldable pub new_sized : AbrConfig F → ℕ → ℕ → ℕ → ℕ → AbrController F
  unfolding fresh_abr trim_ladder_to_open on_rung even_size
  new_sized cfg width height fps bitrate_k =
      even_size
        (on_rung width height (trim_ladder_to_open (fresh_abr cfg width height fps bitrate_k)))

  unfoldable pub new_abr : ℕ → AbrConfig F → ℕ → ℕ → ℕ → ℕ → AbrController F
  unfolding lock_open_pixels new_sized
  new_abr now cfg width height fps bitrate_k =
      record (lock_open_pixels (new_sized cfg width height fps bitrate_k)) {
        hold_until = now + hold;
      }

  -- `Snapshot`: the size, the rates and whether a key frame is asked for, which is asked for once.
  unfoldable pub snapshot : AbrController F → AbrController F × (ℕ × ℕ × ℕ × ℕ × Bool)
  snapshot a = (record a { want_key = false }, (a.width, a.height, a.fps, a.bitrate_k, a.want_key))

  unfoldable pub request_keyframe : AbrController F → AbrController F
  request_keyframe a = record a { want_key = true }

  unfoldable pub open_target : ℕ → ℕ → ℕ → ℕ → AbrConfig F → AbrController F → AbrController F
  unfolding or_else
  open_target width height fps bitrate_k cfg a = record a {
    cfg = record cfg {
      max_width = or_else width cfg.max_width;
      max_height = or_else height cfg.max_height;
      max_bitrate_k = or_else bitrate_k cfg.max_bitrate_k;
      max_fps = or_else fps cfg.max_fps;
    };
    bitrate_k = or_else bitrate_k a.bitrate_k;
    fps = or_else fps a.fps;
  }

  size_to_open : ℕ → ℕ → AbrController F → AbrController F
  unfolding on_rung
  size_to_open width height a =
      if length a.cfg.ladder == 0
      then record a { rung = 0; width = width; height = height }
      else on_rung width height a

  unfoldable pub open_sized : ℕ → ℕ → ℕ → ℕ → AbrConfig F → AbrController F → AbrController F
  unfolding open_target trim_ladder_to_open size_to_open even_size
  open_sized width height fps bitrate_k cfg a = even_size (
      size_to_open width height
        (trim_ladder_to_open (open_target width height fps bitrate_k cfg a)))

  unfoldable pub apply_open_target :
      ℕ → ℕ → ℕ → ℕ → ℕ → AbrConfig F → AbrController F → AbrController F
  unfolding lock_open_pixels open_sized
  apply_open_target now width height fps bitrate_k cfg a =
      record (lock_open_pixels (open_sized width height fps bitrate_k cfg a)) {
        hold_until = now + hold;
        want_key = true;
        cut_streak = 0;
        last_adj = none;
      }

  unfoldable pub cap_bitrate_to_receive : ℕ → AbrController F → AbrController F
  cap_bitrate_to_receive recv_kbps a =
      let target = max (recv_kbps * 85 / 100) a.cfg.min_bitrate_k in
      if recv_kbps == 0
      then a
      else (if ltb target a.bitrate_k then record a { bitrate_k = target } else a)

  unfoldable pub apply_rung_bitrate : AbrController F → AbrController F
  apply_rung_bitrate a =
      let top = get_or a.cfg.ladder 0 (fl.of_int 0) in
      let rel = fl.div (get_or a.cfg.ladder a.rung (fl.of_int 0)) top in
      let br = fl.to_int (
        fl.add (fl.mul (fl.mul (fl.of_int a.cfg.max_bitrate_k) rel) rel)
          (fl.div (fl.of_int 1) (fl.of_int 2))) in
      if length a.cfg.ladder == 0 || a.cfg.max_bitrate_k == 0
      then a
      else if not (fl.lt (fl.of_int 0) top)
      then a
      else record a { bitrate_k = max a.cfg.min_bitrate_k (min a.cfg.max_bitrate_k br) }

  unfoldable pub to_rung : ℕ → AbrController F → AbrController F
  unfolding size_for_rung apply_rung_bitrate
  to_rung rung a =
      let (w, h) = size_for_rung rung (record a { rung = rung }) in
      record (apply_rung_bitrate (record a { rung = rung; width = w; height = h })) {
        want_key = true;
      }

  unfoldable pub step_down_rung : AbrController F → AbrController F
  step_down_rung a = if leb (length a.cfg.ladder) (a.rung + 1) then a else to_rung (a.rung + 1) a

  unfoldable pub step_up_rung : AbrController F → AbrController F
  step_up_rung a = if a.rung == 0 then a else to_rung (a.rung - 1) a

  unfoldable pub shrink_res : ℕ → ℕ → AbrController F → AbrController F
  unfolding at_most or_else
  shrink_res num den a =
      let min_w = at_most a.cfg.max_width a.cfg.min_width in
      let min_h = at_most a.cfg.max_height (or_else a.cfg.min_height (min_w * 9 / 16)) in
      record a {
        width = at_most a.cfg.max_width (max min_w (a.width * num / den));
        height = at_most a.cfg.max_height (max min_h (a.height * num / den));
      }
