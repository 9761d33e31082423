-- ===== src/Crawler/Address/Blocks.antt =====
-- the address checks as lists of network blocks.
use tech_atlas.Prelude.{
  ℕ, ◌+◌, ◌-◌, ◌*◌, ◌^◌, ◌<◌, ◌≡◌, refl, ap, Bool, true, false, not, ◌&&◌, ◌||◌, List, [], ◌∷◌, leb,
  ◌==◌, if◌then◌else◌, any, All, arith, ok, ◌/◌, ◌%◌, Bool-cases, inl, inr, ◌∙◌, sym,
}
use tech_atlas.Prelude.Text.{Text}
use tech_atlas.Crawler.Address.{
  IpAddr, within, is_public_ipv4, is_public_unmapped, is_public_ipv6, octet, is_public_address,
  validate_addresses, dedup, eq_ip,
}

-- A block of a family by its first and last address.
abbrev pub in_block : ℕ → ℕ × ℕ → Bool
in_block n (first, last) = leb first n && leb n last

abbrev pub ip4 : ℕ → ℕ → ℕ → ℕ → ℕ
ip4 a b c d = a * 16777216 + b * 65536 + c * 256 + d

-- 0/8, 10/8, 100.64/10, 127/8, 169.254/16, 172.16/12, 192.0/16, 192.2/16, 192.168/16, 198.18/15,
-- 198.51.100/24, 203.0.113/24 and 224.0.0.0 up to the last address.
abbrev pub blocked_ipv4 : List (ℕ × ℕ)
blocked_ipv4 =
    (ip4 0 0 0 0, ip4 0 255 255 255)
    ∷ (ip4 10 0 0 0, ip4 10 255 255 255)
    ∷ (ip4 100 64 0 0, ip4 100 127 255 255)
    ∷ (ip4 127 0 0 0, ip4 127 255 255 255)
    ∷ (ip4 169 254 0 0, ip4 169 254 255 255)
    ∷ (ip4 172 16 0 0, ip4 172 31 255 255)
    ∷ (ip4 192 0 0 0, ip4 192 0 255 255)
    ∷ (ip4 192 2 0 0, ip4 192 2 255 255)
    ∷ (ip4 192 168 0 0, ip4 192 168 255 255)
    ∷ (ip4 198 18 0 0, ip4 198 19 255 255)
    ∷ (ip4 198 51 100 0, ip4 198 51 100 255)
    ∷ (ip4 203 0 113 0, ip4 203 0 113 255)
    ∷ (ip4 224 0 0 0, ip4 255 255 255 255)
    ∷ []

or_assoc : (x y z : Bool) → ((x || y) || z) ≡ (x || (y || z))
or_assoc x y z = ground arith

or_none : (x : Bool) → x ≡ (x || false)
or_none x = ground arith

-- The same thirteen tests, chained to the left and as a list.
regroup :
    (x₁ x₂ x₃ x₄ x₅ x₆ x₇ x₈ x₉ x₁₀ x₁₁ x₁₂ x₁₃ : Bool)
    → (x₁ || x₂ || x₃ || x₄ || x₅ || x₆ || x₇ || x₈ || x₉ || x₁₀ || x₁₁ || x₁₂ || x₁₃) ≡ (
        x₁
        || (x₂
            || (x₃
                || (x₄
                    || (x₅
                        || (x₆
                            || (x₇
                                || (x₈ || (x₉ || (x₁₀ || (x₁₁ || (x₁₂ || (x₁₃ || false)))))))))))))
regroup x₁ x₂ x₃ x₄ x₅ x₆ x₇ x₈ x₉ x₁₀ x₁₁ x₁₂ x₁₃ = rw (← or_none x₁₃) (simp (or_assoc) refl)

module _ (a b c d : ℕ) (hb : b < 256) (hc : c < 256) (hd : d < 256) where
  wide_block :
      (lo hi : ℕ) → within lo hi a ≡ in_block (ip4 a b c d) (ip4 lo 0 0 0, ip4 hi 255 255 255)
  wide_block lo hi = ground arith

  half_block :
      (x lo hi : ℕ)
      → lo < 256
      → hi < 256
      → (a == x && within lo hi b) ≡ in_block (ip4 a b c d) (ip4 x lo 0 0, ip4 x hi 255 255)
  half_block x lo hi hl hh = ground arith

  small_block :
      (x y z : ℕ)
      → y < 256
      → z < 256
      → (a == x && b == y && c == z) ≡ in_block (ip4 a b c d) (ip4 x y z 0, ip4 x y z 255)
  small_block x y z hy hz = ground arith

  within_one : (x n : ℕ) → (n == x) ≡ within x x n
  within_one x n = ground arith

  -- For octets, the check on the octets refuses exactly the addresses of the listed blocks. Among
  -- them are all of 192.0.0.0/16 and of 192.2.0.0/16.
  pub is_public_ipv4_iff :
      a < 256 → is_public_ipv4 a b c d ≡ not (any (in_block (ip4 a b c d)) blocked_ipv4)
  unfolding is_public_ipv4
  is_public_ipv4_iff ha =
      rw
        (
          within_one 0 a,
          within_one 10 a,
          within_one 127 a,
          within_one 254 b,
          within_one 0 b,
          within_one 2 b,
          within_one 168 b,
          wide_block 0 0,
          wide_block 10 10,
          wide_block 127 127,
          wide_block 224 255,
          half_block 100 64 127 (omega arith) (omega arith),
          half_block 169 254 254 (omega arith) (omega arith),
          half_block 172 16 31 (omega arith) (omega arith),
          half_block 192 0 0 (omega arith) (omega arith),
          half_block 192 2 2 (omega arith) (omega arith),
          half_block 192 168 168 (omega arith) (omega arith),
          half_block 198 18 19 (omega arith) (omega arith),
          ← within_one 0 b,
          small_block 198 51 100 (omega arith) (omega arith),
          small_block 203 0 113 (omega arith) (omega arith),
        )
        (let t = in_block (ip4 a b c d) in
          ap not (
            regroup (t (ip4 0 0 0 0, ip4 0 255 255 255)) (t (ip4 10 0 0 0, ip4 10 255 255 255))
              (t (ip4 100 64 0 0, ip4 100 127 255 255)) (t (ip4 127 0 0 0, ip4 127 255 255 255))
              (t (ip4 169 254 0 0, ip4 169 254 255 255)) (t (ip4 172 16 0 0, ip4 172 31 255 255))
              (t (ip4 192 0 0 0, ip4 192 0 255 255)) (t (ip4 192 2 0 0, ip4 192 2 255 255))
              (t (ip4 192 168 0 0, ip4 192 168 255 255)) (t (ip4 198 18 0 0, ip4 198 19 255 255))
              (t (ip4 198 51 100 0, ip4 198 51 100 255)) (t (ip4 203 0 113 0, ip4 203 0 113 255))
              (t (ip4 224 0 0 0, ip4 255 255 255 255))))

-- ::1, ::, ff00::/8, fc00::/7, fe80::/10 and 2001:db8::/32, as the first and last numbers.
abbrev pub blocked_ipv6 : List (ℕ × ℕ)
blocked_ipv6 =
    (0, 1)
    ∷ (0xff * 2 ^ 120, 2 ^ 128 - 1)
    ∷ (0xfc * 2 ^ 120, 0xfe * 2 ^ 120 - 1)
    ∷ (0xfe80 * 2 ^ 112, 0xfec0 * 2 ^ 112 - 1)
    ∷ (0x20010db8 * 2 ^ 96, 0x20010db9 * 2 ^ 96 - 1)
    ∷ []

-- A block of IPv4 addresses among the mapped ones, ::ffff:0:0/96.
abbrev pub mapped_block : ℕ × ℕ → ℕ × ℕ
mapped_block (first, last) = (0xffff * 2 ^ 32 + first, 0xffff * 2 ^ 32 + last)

abbrev pub mapped_blocks : List (ℕ × ℕ) → List (ℕ × ℕ)
mapped_blocks [] = []
mapped_blocks (block ∷ rest) = mapped_block block ∷ mapped_blocks rest

is_public_unmapped_iff :
    (n : ℕ) → n < 2 ^ 128 → is_public_unmapped n ≡ not (any (in_block n) blocked_ipv6)
unfolding is_public_unmapped
is_public_unmapped_iff n h = ground arith

shifted :
    (m first last : ℕ)
    → in_block (0xffff * 2 ^ 32 + m) (mapped_block (first, last)) ≡ in_block m (first, last)
shifted m first last = ground arith

any-mapped_blocks :
    (m : ℕ) (blocks : List (ℕ × ℕ))
    → any (in_block (0xffff * 2 ^ 32 + m)) (mapped_blocks blocks) ≡ any (in_block m) blocks
any-mapped_blocks m [] = refl
any-mapped_blocks m ((first, last) ∷ rest) =
    rw (any-mapped_blocks m rest, shifted m first last) refl

-- The last four octets of a number are its remainder.
last_octets : (n : ℕ) → ip4 (octet 12 n) (octet 13 n) (octet 14 n) (octet 15 n) ≡ n % 2 ^ 32
last_octets n = omega arith

outside_mapped :
    (n : ℕ) → (n / 2 ^ 32 == 0xffff) ≡ false → any (in_block n) (mapped_blocks blocked_ipv4) ≡ false
outside_mapped n h = ground (arith, h)

inside_mapped :
    (n : ℕ)
    → (n / 2 ^ 32 == 0xffff) ≡ true
    → is_public_ipv4 (octet 12 n) (octet 13 n) (octet 14 n) (octet 15 n)
      ≡ not (any (in_block n) (mapped_blocks blocked_ipv4))
inside_mapped n h =
    let whole : 0xffff * 2 ^ 32 + n % 2 ^ 32 ≡ n = ground (arith, h) in
    is_public_ipv4_iff (octet 12 n) (octet 13 n) (octet 14 n) (octet 15 n) (omega arith)
      (omega arith) (omega arith) (omega arith)
    ∙ ap (λ k. not (any (in_block k) blocked_ipv4)) (last_octets n)
    ∙ ap not (sym (any-mapped_blocks (n % 2 ^ 32) blocked_ipv4))
    ∙ ap (λ k. not (any (in_block k) (mapped_blocks blocked_ipv4))) whole

no_listed : (n : ℕ) → (n / 2 ^ 32 == 0xffff) ≡ true → any (in_block n) blocked_ipv6 ≡ false
no_listed n h = ground (arith, h)

second_alone : (x y p : Bool) → x ≡ false → p ≡ not y → p ≡ not (x || y)
second_alone x y p h k = rw (h, k) refl

first_alone : (x y p : Bool) → y ≡ false → p ≡ not x → p ≡ not (x || y)
first_alone true y p h k = k
first_alone false y p h k = rw (h, k) refl

-- For a 128-bit number, the check of an IPv6 address refuses exactly the addresses of the listed
-- blocks and, among the mapped addresses ::ffff:0:0/96, those of the listed IPv4 blocks.
pub is_public_ipv6_iff :
    (n : ℕ)
    → n < 2 ^ 128
    → is_public_ipv6 n
      ≡ not (any (in_block n) blocked_ipv6 || any (in_block n) (mapped_blocks blocked_ipv4))
unfolding is_public_ipv6
is_public_ipv6_iff n h =
    let listed = any (in_block n) blocked_ipv6 in
    let mapped = any (in_block n) (mapped_blocks blocked_ipv4) in
    elim (Bool-cases (n / 2 ^ 32 == 0xffff)) [
      | inl inside ↦
          rw inside (second_alone listed mapped _ (no_listed n inside) (inside_mapped n inside))
      | inr outside ↦
          rw outside
            (first_alone listed mapped _ (outside_mapped n outside) (is_public_unmapped_iff n h))
    ]

-- A validated resolution has public addresses alone.
pub validate_addresses-All :
    (host : Text) (ips : List IpAddr)
    → validate_addresses host ips ≡ ok tt
    → All (λ a. is_public_address a ≡ true) ips
unfolding validate_addresses
validate_addresses-All host [] h = tt
validate_addresses-All host (a ∷ ips) h =
    (ground arith, validate_addresses-All host ips (ground arith))

pub dedup-All {ℓ} : (P : IpAddr → Type ℓ) (ips : List IpAddr) → All P ips → All P (dedup ips)
unfolding dedup
dedup-All P [] h = tt
dedup-All P (a ∷ []) h = h
dedup-All P (a ∷ b ∷ rest) h = go (eq_ip a b) (dedup-All P (b ∷ rest) h.1)
  where
    go :
        (same : Bool)
        → All P (dedup (b ∷ rest))
        → All P (if same then dedup (b ∷ rest) else a ∷ dedup (b ∷ rest))
    go true kept = kept
    go false kept = (h.0, kept)
