-- ===== src/Web/Address.antt =====
-- packages/plugin-tools-web/src/index.ts: IPv4 and IPv6 addresses of private and special networks.
-- The regular expressions are tests on the parts of a text.
use Prim.Native.Nat.{◌/◌, ◌%◌}
use Prim.Native.Char.{Char, code}
use Prim.Native.String
use text.Mathlib.Text.{◌==◌}
use generic_ai.Base.{
  ℕ, suc, ◌+◌, ◌-◌, ◌*◌, String, Bool, true, false, ◌&&◌, ◌||◌, Option, none, some, List, [], ◌∷◌,
  if◌then◌else◌, leb, ltb, eqb,
}
use generic_ai.Base.Text.{is_empty}
use generic_ai.Base.Numbers.{digit_text}

-- `s.endsWith(t)`
unfoldable pub ends_with : String → String → Bool
ends_with String.[] t = String.[] == t
ends_with (String.◌∷◌ c s) t = String.◌∷◌ c s == t || ends_with s t

abbrev cons_part : Char → List String → List String
cons_part c [] = String.◌∷◌ c String.[] ∷ []
cons_part c (p ∷ ps) = String.◌∷◌ c p ∷ ps

-- `s.split(…)` at the characters with a code
unfoldable pub split_at : ℕ → String → List String
split_at sep String.[] = String.[] ∷ []
split_at sep (String.◌∷◌ c s) =
    let rest = split_at sep s in if eqb (code c) sep then String.[] ∷ rest else cons_part c rest

-- `s.slice(1)`, `s.slice(0, -1)`
abbrev pub without_first : String → String
without_first String.[] = String.[]
without_first (String.◌∷◌ c s) = s

abbrev pub without_last : String → String
without_last String.[] = String.[]
without_last (String.◌∷◌ c s) = if is_empty s then String.[] else String.◌∷◌ c (without_last s)

abbrev pub text_length : String → ℕ
text_length String.[] = 0
text_length (String.◌∷◌ c s) = suc (text_length s)

abbrev is_digit : ℕ → Bool
is_digit c = leb b'0' c && leb c b'9'

abbrev all_digits : String → Bool
all_digits String.[] = true
all_digits (String.◌∷◌ c s) = is_digit (code c) && all_digits s

-- `\d{1,3}`
abbrev pub is_group : String → Bool
is_group s = all_digits s && leb 1 (text_length s) && leb (text_length s) 3

-- `Number.parseInt(s, 10)` on digits
abbrev pub decimal_from : ℕ → String → ℕ
decimal_from n String.[] = n
decimal_from n (String.◌∷◌ c s) = decimal_from (10 * n + (code c - b'0')) s

pub record Octets : Type 0 where
  pub first : ℕ
  pub second : ℕ
  pub third : ℕ
  pub fourth : ℕ

abbrev pub octets_of : List String → Option Octets
octets_of (a ∷ b ∷ c ∷ d ∷ []) =
    if is_group a && is_group b && is_group c && is_group d
    then some (record {
      first = decimal_from 0 a;
      second = decimal_from 0 b;
      third = decimal_from 0 c;
      fourth = decimal_from 0 d;
    })
    else none
octets_of _ = none

-- `/^\d{1,3}(?:\.\d{1,3}){3}$/`, and the numbers of the four groups
unfoldable pub parse_octets : String → Option Octets
unfolding split_at
parse_octets hostname = octets_of (split_at b'.' hostname)

unfoldable pub is_private_octets : Octets → Bool
is_private_octets o =
    eqb o.first 0
    || eqb o.first 10
    || (eqb o.first 100 && leb 64 o.second && leb o.second 127)
    || eqb o.first 127
    || (eqb o.first 169 && eqb o.second 254)
    || (eqb o.first 172 && leb 16 o.second && leb o.second 31)
    || (eqb o.first 192 && eqb o.second 0 && (eqb o.third 0 || eqb o.third 2))
    || (eqb o.first 192 && eqb o.second 88 && eqb o.third 99)
    || (eqb o.first 192 && eqb o.second 168)
    || (eqb o.first 198 && (eqb o.second 18 || eqb o.second 19))
    || (eqb o.first 198 && eqb o.second 51 && eqb o.third 100)
    || (eqb o.first 203 && eqb o.second 0 && eqb o.third 113)
    || leb 224 o.first

abbrev pub some_too_large : Octets → Bool
some_too_large o = ltb 255 o.first || ltb 255 o.second || ltb 255 o.third || ltb 255 o.fourth

abbrev pub is_private : Option Octets → Bool
is_private none = false
is_private (some o) = if some_too_large o then false else is_private_octets o

unfoldable pub is_private_ipv4 : String → Bool
unfolding parse_octets is_private_octets
is_private_ipv4 hostname = is_private (parse_octets hostname)

-- The lower-case code of an ASCII letter, for the tests with the flag `i`.
abbrev pub lower_code : ℕ → ℕ
lower_code c = if leb b'A' c && leb c b'Z' then c + 32 else c

-- The value of a hexadecimal digit.
abbrev hex_digit : ℕ → Option ℕ
hex_digit c =
    if is_digit c
    then some (c - b'0')
    else if leb b'a' (lower_code c) && leb (lower_code c) b'f'
    then some (lower_code c - b'a' + 10)
    else none

abbrev hex_from : ℕ → String → Option ℕ
hex_from n String.[] = some n
hex_from n (String.◌∷◌ c s) = elim (hex_digit (code c)) [
  | none ↦ none
  | some d ↦ hex_from (16 * n + d) s
]

-- `/^[0-9a-f]{1,4}$/i`, and `Number.parseInt(s, 16)`
unfoldable pub hextet : String → Option ℕ
hextet s = if leb 1 (text_length s) && leb (text_length s) 4 then hex_from 0 s else none

-- A number below 256 in a text.
unfoldable pub octet_text : ℕ → String
octet_text n =
    if ltb n 10
    then digit_text n
    else if ltb n 100
    then String.◌++◌ (digit_text (n / 10)) (digit_text (n % 10))
    else String.◌++◌ (digit_text (n / 100))
        (String.◌++◌ (digit_text (n / 10 % 10)) (digit_text (n % 10)))

-- `${high >> 8}.${high & 0xff}.${low >> 8}.${low & 0xff}`
unfoldable pub dotted : ℕ → ℕ → String
unfolding octet_text
dotted high low = String.◌++◌ (octet_text (high / 256)) (
    String.◌∷◌ "." (
      String.◌++◌ (octet_text (high % 256)) (
        String.◌∷◌ "."
          (String.◌++◌ (octet_text (low / 256)) (String.◌∷◌ "." (octet_text (low % 256)))))))
