-- ===== src/Re2/Channel.antt =====
-- internal/re2/channel.go: the routes of a device's two channels.
use runeverything.Base.{
  ℕ, ◌≡◌, refl, ◌≢◌, ◌⊎◌, inl, inr, Option, none, some, [], ◌∷◌, ◌++◌, arith, ◌==◌, if◌then◌else◌,
  length, All,
}
use runeverything.Base.Bytes.{Bytes, codes}

abbrev pub channel_data : Bytes
channel_data = codes "data"

-- '#'
abbrev pub channel_sep : ℕ
channel_sep = 35

unfoldable pub channel_route : Bytes → Bytes → Bytes
channel_route device_id channel =
    if length channel == 0 then device_id else device_id ++ (channel_sep ∷ channel)

-- `strings.LastIndex` of the separator, with the two parts that it separates.
unfoldable pub split_last : Bytes → Option (Bytes × Bytes)
split_last [] = none
split_last (c ∷ cs) = elim (split_last cs) [
  | some (front, back) ↦ some (c ∷ front, back)
  | none ↦ if c == channel_sep then some ([], cs) else none
]

unfoldable pub split_route : Bytes → Bytes × Bytes
split_route route = elim (split_last route) [ some p ↦ p | none ↦ (route, []) ]

-- The text has no separator.
abbrev pub Plain : Bytes → Type 0
Plain cs = All (λ c. c ≢ channel_sep) cs

split_last-Plain : (cs : Bytes) → Plain cs → split_last cs ≡ none
unfolding split_last
split_last-Plain [] h = refl
split_last-Plain (c ∷ cs) h = ground (arith, split_last-Plain cs h.1)

split_last-append :
    (id channel : Bytes)
    → Plain channel
    → split_last (id ++ (channel_sep ∷ channel)) ≡ some (id, channel)
unfolding split_last
split_last-append [] channel h = ground (arith, split_last-Plain channel h)
split_last-append (c ∷ id) channel h = rw (split_last-append id channel h)

-- A route is taken apart into the device and the channel that it was made of, if the channel's
-- name has no separator and, for the default channel, the device's id has none either.
split_route-channel_route :
    (id channel : Bytes)
    → Plain channel
    → (channel ≢ []) ⊎ Plain id
    → split_route (channel_route id channel) ≡ (id, channel)
unfolding split_route channel_route split_last
split_route-channel_route id [] pc (inl h) = absurd (h refl)
split_route-channel_route id [] pc (inr h) = rw (split_last-Plain id h)
split_route-channel_route id (c ∷ channel) pc h =
    ground (arith, split_last-append id (c ∷ channel) pc)

-- Where no id and no channel's name has a separator, equal routes are those of one device and of
-- one channel.
pub channel_route-injective :
    (id id' channel channel' : Bytes)
    → Plain id
    → Plain id'
    → Plain channel
    → Plain channel'
    → channel_route id channel ≡ channel_route id' channel'
    → (id ≡ id') × (channel ≡ channel')
channel_route-injective id id' channel channel' hi hi' hc hc' e = ground (
  arith,
  e,
  split_route-channel_route id channel hc (inr hi),
  split_route-channel_route id' channel' hc' (inr hi'),
)
