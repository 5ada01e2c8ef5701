-- ===== src/Web/Blocks.antt =====
-- The IPv4 networks that packages/plugin-tools-web/src/index.ts keeps the web tools away from, as
-- ranges of 32-bit addresses.
use generic_ai.Base.{
  ℕ, ◌+◌, ◌*◌, ◌≤◌, ◌<◌, String, ◌≡◌, Bool, false, ◌&&◌, ◌||◌, some, List, [], ◌∷◌, leb, ltb, eqb,
  arith, ap, ◌∙◌,
}
use generic_ai.Web.Address.{
  Octets, parse_octets, some_too_large, is_private_octets, is_private_ipv4, is_private,
}

-- The address with four octets, in network order.
abbrev pub address : Octets → ℕ
address o = 16777216 * o.first + 65536 * o.second + 256 * o.third + o.fourth

-- A block of a table of networks: its first address and its number of addresses.
pub record Block : Type 0 where
  pub base : ℕ
  pub size : ℕ

abbrev pub in_block : ℕ → Block → Bool
in_block n b = leb b.base n && ltb n (b.base + b.size)

abbrev pub block : ℕ → ℕ → ℕ → ℕ → Block
block a b c size = record { base = 16777216 * a + 65536 * b + 256 * c; size = size }

abbrev pub in_some : ℕ → List Block → Bool
in_some n [] = false
in_some n (b ∷ bs) = in_block n b || in_some n bs

-- 0/8, 10/8, 100.64/10, 127/8, 169.254/16, 172.16/12, 192.0.0/24, 192.0.2/24, 192.88.99/24,
-- 192.168/16, 198.18/15, 198.51.100/24, 203.0.113/24, and all from 224.0.0.0 on
abbrev pub special_blocks : List Block
special_blocks =
    block 0 0 0 16777216
    ∷ block 10 0 0 16777216
    ∷ block 100 64 0 4194304
    ∷ block 127 0 0 16777216
    ∷ block 169 254 0 65536
    ∷ block 172 16 0 1048576
    ∷ block 192 0 0 256
    ∷ block 192 0 2 256
    ∷ block 192 88 99 256
    ∷ block 192 168 0 65536
    ∷ block 198 18 0 131072
    ∷ block 198 51 100 256
    ∷ block 203 0 113 256
    ∷ block 224 0 0 536870912
    ∷ []

abbrev pub AreBytes : Octets → Type 0
AreBytes o = (o.first < 256) × (o.second < 256) × (o.third < 256) × (o.fourth < 256)

-- The three widths of block, by the octets.
wide :
    (o : Octets) (k : ℕ) → AreBytes o → in_block (address o) (block k 0 0 16777216) ≡ eqb o.first k
wide o k h = ground arith

middle :
    (o : Octets) (k lo n : ℕ)
    → AreBytes o
    → lo + n ≤ 256
    → in_block (address o) (block k lo 0 (65536 * n))
      ≡ (eqb o.first k && leb lo o.second && ltb o.second (lo + n))
middle o k lo n h le = ground arith

narrow :
    (o : Octets) (k l m : ℕ)
    → AreBytes o
    → l < 256
    → m < 256
    → in_block (address o) (block k l m 256) ≡ (eqb o.first k && eqb o.second l && eqb o.third m)
narrow o k l m h hl hm = ground arith

top : (o : Octets) → AreBytes o → in_block (address o) (block 224 0 0 536870912) ≡ leb 224 o.first
top o h = ground arith

-- The octet test of `isPrivateIpv4` is the table of networks.
private-eq-special :
    (o : Octets) → AreBytes o → is_private_octets o ≡ in_some (address o) special_blocks
unfolding is_private_octets
private-eq-special o h =
    rw
      (
        wide o 0 h,
        wide o 10 h,
        middle o 100 64 64 h (omega arith),
        wide o 127 h,
        middle o 169 254 1 h (omega arith),
        middle o 172 16 16 h (omega arith),
        narrow o 192 0 0 h (omega arith) (omega arith),
        narrow o 192 0 2 h (omega arith) (omega arith),
        narrow o 192 88 99 h (omega arith) (omega arith),
        middle o 192 168 1 h (omega arith),
        middle o 198 18 2 h (omega arith),
        narrow o 198 51 100 h (omega arith) (omega arith),
        narrow o 203 0 113 h (omega arith) (omega arith),
        top o h,
      )
      (ground arith)

within : (o : Octets) → AreBytes o → some_too_large o ≡ false
within o h = ground arith

-- A text of four groups of up to three digits, each below 256, is private exactly if its address
-- lies in one of the special networks.
pub is_private_ipv4-special :
    (s : String) (o : Octets)
    → parse_octets s ≡ some o
    → AreBytes o
    → is_private_ipv4 s ≡ in_some (address o) special_blocks
unfolding is_private_ipv4
is_private_ipv4-special s o e h = ap is_private e ∙ rw (within o h) (private-eq-special o h)
