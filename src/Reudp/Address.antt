-- ===== src/Reudp/Address.antt =====
-- The UDP addresses of internal/reudp/endpoint.go, and what the standard library's net.IP says of
-- them. An IPv4 address has 4 bytes, or 16 with the prefix of a mapped address.
use runeverything.Base.{
  ℕ, ◌≡◌, Bool, true, false, ◌&&◌, Option, none, some, [], ◌∷◌, ◌++◌, arith, leb, ◌==◌,
  if◌then◌else◌, length, get_or, take, drop,
}
use runeverything.Base.Bytes.{Bytes, bytes_eq, bytes_eq_iff}

pub record Addr : Type 0 where
  pub ip : Bytes
  pub port : ℕ
  pub zone : Bytes

abbrev pub mapped_prefix : Bytes
mapped_prefix = 0 ∷ 0 ∷ 0 ∷ 0 ∷ 0 ∷ 0 ∷ 0 ∷ 0 ∷ 0 ∷ 0 ∷ 255 ∷ 255 ∷ []

-- `IP.To4`
unfoldable pub to4 : Bytes → Option Bytes
to4 ip =
    if length ip == 4
    then some ip
    else if length ip == 16 && bytes_eq (take 12 ip) mapped_prefix
    then some (drop 12 ip)
    else none

-- `IP.Equal`
unfoldable pub ip_equal : Bytes → Bytes → Bool
ip_equal a b =
    if length a == length b
    then bytes_eq a b
    else if length a == 4 && length b == 16
    then bytes_eq (take 12 b) mapped_prefix && bytes_eq a (drop 12 b)
    else if length a == 16 && length b == 4
    then bytes_eq (take 12 a) mapped_prefix && bytes_eq (drop 12 a) b
    else false

-- `udpAddrEqual`; `none` is nil.
unfoldable pub udp_addr_equal : Option Addr → Option Addr → Bool
unfolding ip_equal
udp_addr_equal none none = true
udp_addr_equal none (some b) = false
udp_addr_equal (some a) none = false
udp_addr_equal (some a) (some b) = a.port == b.port && ip_equal a.ip b.ip

private_v4 : Option Bytes → Bool
private_v4 none = false
private_v4 (some ip) =
    let a = get_or ip 0 0 in
    let b = get_or ip 1 0 in
    if a == 10
    then true
    else if a == 192 && b == 168
    then true
    else if a == 172 && leb 16 b && leb b 31
    then true
    else false

-- `isPrivateUDPAddr`
unfoldable pub is_private_udp_addr : Addr → Bool
unfolding to4 private_v4
is_private_udp_addr a = private_v4 (to4 a.ip)

-- The mapped form of an address of 4 bytes equals that address, and both are judged private alike.
pub mapped_alike :
    (a : Addr)
    → length a.ip ≡ 4
    → (udp_addr_equal (some a) (some (record a { ip = mapped_prefix ++ a.ip })) ≡ true)
      × (is_private_udp_addr (record a { ip = mapped_prefix ++ a.ip }) ≡ is_private_udp_addr a)
unfolding udp_addr_equal is_private_udp_addr
mapped_alike a h = ground (arith, bytes_eq_iff mapped_prefix mapped_prefix, bytes_eq_iff a.ip a.ip)
