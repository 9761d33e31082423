-- ===== src/Crawler/Address.antt =====
-- The addresses that a crawl may connect to. An IPv4 address is its four octets, an IPv6 address
-- its 128-bit number.
pub mod Blocks
use tech_atlas.Prelude.{
  ℕ, ◌+◌, ◌-◌, ◌*◌, ◌/◌, ◌%◌, ◌^◌, Bool, true, false, not, ◌&&◌, ◌||◌, Option, none, some, List, [],
  ◌∷◌, leb, ltb, ◌==◌, if◌then◌else◌, Outcome, ok, err, ◌>>=◌, ◌>>◌, refuse_if,
}
use tech_atlas.Prelude.Text.{Text}

pub data IpAddr : Type 0 where
  v4 : ℕ → ℕ → ℕ → ℕ → IpAddr
  v6 : ℕ → IpAddr

pub data DnsResolverError : Type 0 where
  lookup no_addresses : Text → DnsResolverError

pub data DnsSafetyError : Type 0 where
  resolution : DnsResolverError → DnsSafetyError
  dns_timeout : DnsSafetyError
  blocked_address : Text → IpAddr → DnsSafetyError

abbrev pub within : ℕ → ℕ → ℕ → Bool
within low high n = leb low n && leb n high

-- The patterns of the source's `matches!`, in its order.
unfoldable pub is_public_ipv4 : ℕ → ℕ → ℕ → ℕ → Bool
is_public_ipv4 a b c d = not (
    a == 0
    || a == 10
    || (a == 100 && within 64 127 b)
    || a == 127
    || (a == 169 && b == 254)
    || (a == 172 && within 16 31 b)
    || (a == 192 && b == 0)
    || (a == 192 && b == 2)
    || (a == 192 && b == 168)
    || (a == 198 && within 18 19 b)
    || (a == 198 && b == 51 && c == 100)
    || (a == 203 && b == 0 && c == 113)
    || within 224 255 a)

-- `octets()[i]` of an IPv6 address.
abbrev pub octet : ℕ → ℕ → ℕ
octet i n = n / 2 ^ (8 * (15 - i)) % 256

-- `x & 0xfe == 0xfc` keeps all bits but the last, `x & 0xc0 == 0x80` the first two.
unfoldable pub is_public_unmapped : ℕ → Bool
is_public_unmapped n =
    not (n == 1)
    && not (n == 0)
    && not (octet 0 n == 0xff)
    && not (octet 0 n / 2 * 2 == 0xfc)
    && not (octet 0 n == 0xfe && octet 1 n / 64 * 64 == 0x80)
    && not (octet 0 n == 0x20 && octet 1 n == 0x01 && octet 2 n == 0x0d && octet 3 n == 0xb8)

-- The arm of the IPv6 addresses. `to_ipv4_mapped` is the address in the last four octets of
-- ::ffff:a.b.c.d.
unfoldable pub is_public_ipv6 : ℕ → Bool
is_public_ipv6 n =
    if n / 2 ^ 32 == 0xffff
    then is_public_ipv4 (octet 12 n) (octet 13 n) (octet 14 n) (octet 15 n)
    else is_public_unmapped n

unfoldable pub is_public_address : IpAddr → Bool
is_public_address (v4 a b c d) = is_public_ipv4 a b c d
is_public_address (v6 n) = is_public_ipv6 n

unfoldable pub validate_addresses : Text → List IpAddr → Outcome DnsSafetyError (Unit {0})
validate_addresses host [] = ok tt
validate_addresses host (a ∷ rest) =
    let checked = validate_addresses host rest in
    if is_public_address a then checked else err (blocked_address host a)

-- The order that `IpAddr` derives: IPv4 first, then by octets.
unfoldable pub ip_before : IpAddr → IpAddr → Bool
ip_before (v4 a b c d) (v4 e f g h) =
    leb (a * 2 ^ 24 + b * 2 ^ 16 + c * 2 ^ 8 + d) (e * 2 ^ 24 + f * 2 ^ 16 + g * 2 ^ 8 + h)
ip_before (v4 a b c d) (v6 n) = true
ip_before (v6 n) (v4 a b c d) = false
ip_before (v6 m) (v6 n) = leb m n

unfoldable pub eq_ip : IpAddr → IpAddr → Bool
eq_ip (v4 a b c d) (v4 e f g h) = a == e && b == f && c == g && d == h
eq_ip (v6 m) (v6 n) = m == n
eq_ip _ _ = false

-- `dedup`: equal neighbours are kept once.
unfoldable pub dedup : List IpAddr → List IpAddr
unfolding eq_ip
dedup [] = []
dedup (a ∷ []) = a ∷ []
dedup (a ∷ b ∷ rest) = let kept = dedup (b ∷ rest) in if eq_ip a b then kept else a ∷ kept
