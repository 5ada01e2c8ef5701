-- ===== src/Web/Mapped.antt =====
-- An IPv4 address inside an IPv6 address, as packages/plugin-tools-web/src/index.ts writes it out and
-- reads it again.
use Prim.Native.Nat.{◌/◌, ◌%◌}
use Prim.Native.Char.{Char, code}
use Prim.Native.String
use text.Mathlib.TextLemmas.{nil-append, cons-append}
use generic_ai.Base.{
  ℕ, zero, suc, ◌+◌, ◌*◌, ◌≤◌, ◌<◌, String, ◌≡◌, refl, Bool, true, ◌&&◌, some, [], ◌∷◌, eqb, not,
  arith, ◌∙◌, ap,
}
use generic_ai.Web.Address.{
  Octets, split_at, is_group, decimal_from, parse_octets, octet_text, dotted, is_private_ipv4,
}
use generic_ai.Web.Blocks.{address, in_some, special_blocks, is_private_ipv4-special}

abbrev has_no : ℕ → String → Bool
has_no sep String.[] = true
has_no sep (String.◌∷◌ c s) = not (eqb (code c) sep) && has_no sep s

split_at-none : (sep : ℕ) (t : String) → has_no sep t ≡ true → split_at sep t ≡ t ∷ []
unfolding split_at
split_at-none sep String.[] h = refl
split_at-none sep (String.◌∷◌ c t) h = ground (arith, split_at-none sep t)

split_at-append :
    (sep : ℕ) (c : Char) (t r : String)
    → code c ≡ sep
    → has_no sep t ≡ true
    → split_at sep (String.◌++◌ t (String.◌∷◌ c r)) ≡ t ∷ split_at sep r
unfolding split_at
split_at-append sep c String.[] r e h = rw (nil-append (String.◌∷◌ c r)) (ground arith)
split_at-append sep c (String.◌∷◌ d t) r e h =
    rw (cons-append d t (String.◌∷◌ c r)) (ground (arith, split_at-append sep c t r))

-- A test of all numbers up to a last one.
holds_up_to : (ℕ → Bool) → ℕ → Bool
holds_up_to test zero = test 0
holds_up_to test (suc last) = holds_up_to test last && test (suc last)

holds_at : (test : ℕ → Bool) (last x : ℕ) → holds_up_to test last ≡ true → x ≤ last → test x ≡ true
unfolding holds_up_to
holds_at test zero x all le = let e : x ≡ 0 = omega arith in rw e all
holds_at test (suc last) x all le = ground (arith, holds_at test last x)

-- The text of a byte is a group of digits that reads as the byte.
reads_back : ℕ → Bool
unfolding octet_text
reads_back n =
    is_group (octet_text n) && has_no b'.' (octet_text n) && eqb (decimal_from 0 (octet_text n)) n

bytes_read_back : holds_up_to reads_back 255 ≡ true
unfolding holds_up_to reads_back
bytes_read_back = refl

octet_text_lem :
    (n : ℕ)
    → n < 256
    → (is_group (octet_text n) ≡ true)
      × (has_no b'.' (octet_text n) ≡ true)
      × (decimal_from 0 (octet_text n) ≡ n)
unfolding reads_back
octet_text_lem n h = ground (arith, holds_at reads_back 255 n bytes_read_back)

abbrev groups : ℕ → ℕ → Octets
groups high low = record {
  first = high / 256;
  second = high % 256;
  third = low / 256;
  fourth = low % 256;
}

-- Reading the four groups of a text in their order.
parse_octets-dotted :
    (high low : ℕ)
    → high < 65536
    → low < 65536
    → parse_octets (dotted high low) ≡ some (groups high low)
unfolding parse_octets dotted
parse_octets-dotted high low hh hl =
    let (ga, na, va) = octet_text_lem (high / 256) (omega arith) in
    let (gb, nb, vb) = octet_text_lem (high % 256) (omega arith) in
    let (gc, nc, vc) = octet_text_lem (low / 256) (omega arith) in
    let (gd, nd, vd) = octet_text_lem (low % 256) (omega arith) in
    rw
      (
        split_at-append b'.' "." (octet_text (high / 256)) _ refl na,
        split_at-append b'.' "." (octet_text (high % 256)) _ refl nb,
        split_at-append b'.' "." (octet_text (low / 256)) _ refl nc,
        split_at-none b'.' (octet_text (low % 256)) nd,
        ga,
        gb,
        gc,
        gd,
        va,
        vb,
        vc,
        vd,
      )
      refl

-- The text of an IPv4 address that stands in the last 32 bits of an IPv6 address is private exactly
-- if these bits, read as a number, lie in one of the special networks.
pub is_private_ipv4-dotted :
    (high low : ℕ)
    → high < 65536
    → low < 65536
    → is_private_ipv4 (dotted high low) ≡ in_some (65536 * high + low) special_blocks
is_private_ipv4-dotted high low hh hl =
    let same : address (groups high low) ≡ 65536 * high + low = omega arith in
    is_private_ipv4-special (dotted high low) (groups high low) (parse_octets-dotted high low hh hl)
      (omega arith)
    ∙ ap (λ n. in_some n special_blocks) same
