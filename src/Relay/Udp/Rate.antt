-- ===== src/Relay/Udp/Rate.antt =====
-- The limit on associations of cmd/relay/udp.go: what `rateLimiter.allow` lets through in a minute.
use runeverything.Relay.Udp.{allow, attempts_of}
use runeverything.Base.Bytes.{Bytes, bytes_eq, bytes_eq_iff}
use runeverything.Base.{ℕ, ◌+◌, min, ◌≡◌, ◌&&◌, List, [], ◌∷◌, arith, if◌then◌else◌}
use runeverything.Base.Maps.{lookup, insert, lookup-insert, bytes_eq_instance}

-- The attempts of a minute that come from `ip`, and those of them that are let through.
abbrev pub attempted : Bytes → List Bytes → ℕ
attempted ip [] = 0
attempted ip (x ∷ xs) = (if bytes_eq x ip then 1 else 0) + attempted ip xs

pub admitted : Bytes → List Bytes → List (Bytes × ℕ) → ℕ
admitted ip [] m = 0
admitted ip (x ∷ xs) m =
    (if bytes_eq x ip && (allow x m).1 then 1 else 0) + admitted ip xs (allow x m).0

admitted_from :
    (ip : Bytes) (xs : List Bytes) (m : List (Bytes × ℕ))
    → admitted ip xs m + min 30 (attempts_of (lookup ip m))
      ≡ min 30 (attempts_of (lookup ip m) + attempted ip xs)
unfolding admitted allow attempts_of
admitted_from ip [] m = omega arith
admitted_from ip (x ∷ xs) m =
    let n = attempts_of (lookup x m) + 1 in
    ground (arith, admitted_from ip xs (insert x n m), lookup-insert x ip n m, bytes_eq_iff x ip)

-- Of the attempts that come from an address in a minute, whatever others come in between, the
-- first 30 are let through and no more.
admitted-min : (ip : Bytes) (xs : List Bytes) → admitted ip xs [] ≡ min 30 (attempted ip xs)
unfolding lookup attempts_of
admitted-min ip xs = ground (arith, admitted_from ip xs [])
