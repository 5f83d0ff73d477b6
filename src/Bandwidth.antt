-- ===== src/Bandwidth.antt =====
-- internal/bandwidth/bandwidth.go: the capacity of a relay and the sessions that it admits.
use runeverything.Base.{
  ℕ, ◌+◌, ◌-◌, ◌*◌, ◌/◌, ◌≤◌, Bool, true, false, not, arith, ltb, leb, ◌==◌, if◌then◌else◌,
}
use runeverything.Base.Float64.{Float64}

abbrev pub default_per_user_kbps : ℕ
default_per_user_kbps = 2500

module _ {F : Type 0} ⦃fl : Float64 F⦄ where
  unfoldable pub max_sessions_from_mbps : F → ℕ → ℕ
  max_sessions_from_mbps mbps_up per_user_kbps =
      let per_user = if per_user_kbps == 0 then default_per_user_kbps else per_user_kbps in
      if not (fl.lt (fl.of_int 0) mbps_up)
      then 1
      else (let usable = fl.mul mbps_up (fl.div (fl.of_int 7) (fl.of_int 10)) in
          let n = fl.to_int (fl.div (fl.mul usable (fl.of_int 1000)) (fl.of_int per_user)) in
          let n' = if ltb n 1 then 1 else n in if ltb 64 n' then 64 else n')

  -- An estimate is at least one session and at most 64.
  pub max_sessions_from_mbps_bounds :
      (mbps_up : F) (per_user_kbps : ℕ)
      → (1 ≤ max_sessions_from_mbps mbps_up per_user_kbps)
        × (max_sessions_from_mbps mbps_up per_user_kbps ≤ 64)
  unfolding max_sessions_from_mbps
  max_sessions_from_mbps_bounds mbps_up per_user_kbps = ground arith

pub record Limiter : Type 0 where
  pub max_sessions : ℕ
  pub count : ℕ

unfoldable pub new_limiter : ℕ → Limiter
new_limiter max_sessions = record {
  max_sessions = if ltb max_sessions 1 then 1 else max_sessions;
  count = 0;
}

unfoldable pub try_acquire : Limiter → Limiter × Bool
try_acquire l =
    if leb l.max_sessions l.count then (l, false) else (record l { count = l.count + 1 }, true)

unfoldable pub release : Limiter → Limiter
release l = if ltb 0 l.count then record l { count = l.count - 1 } else l

unfoldable pub busy_score : Limiter → ℕ
busy_score l = if l.max_sessions == 0 then 100 else l.count * 100 / l.max_sessions
