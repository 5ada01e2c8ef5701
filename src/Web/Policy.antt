-- ===== src/Web/Policy.antt =====
-- packages/plugin-tools-web/src/index.ts: the host policy, and the two checks of a URL. What the
-- platform does with texts and URLs is the parameter Platform.
use Prim.Native.Char.{code}
use text.Mathlib.Text.{starts_with, ◌==◌}
use generic_ai.Base.{
  ℕ, zero, suc, String, Bool, true, false, not, ◌&&◌, ◌||◌, Option, none, some, List, [], ◌∷◌,
  if◌then◌else◌, ltb, eqb, map, keep_if, length,
}
use generic_ai.Base.Text.{trim, is_empty}
use generic_ai.Base.Exec.{Result, ok, err}
use generic_ai.Web.Address.{
  ends_with, split_at, without_first, without_last, text_length, lower_code, hextet, dotted,
  is_private_ipv4,
}

-- A parsed `URL`; `href` is what its `toString()` gives.
pub record Url : Type 0 where
  pub protocol : String
  pub hostname : String
  pub href : String

-- `new URL(text)`, `new URL(text, base)`, `isIP(text)` and `text.toLowerCase()`; `none` where the
-- constructor throws.
pub record Platform : Type 0 where
  pub parse_url : String → Option Url
  pub parse_relative : String → Url → Option Url
  pub is_ip : String → ℕ
  pub lower : String → String

pub record UrlPolicy : Type 0 where
  pub allowed_hosts : List String
  pub blocked_hosts : List String

pub data WebError (X : Type 0) : Type 0 where
  invalid_url bad_protocol : WebError X
  blocked_host internal_host not_allowed : String → WebError X
  unresolved no_addresses : String → WebError X
  not_an_address internal_address : String → String → WebError X
  aborted fetch_failed : X → WebError X
  too_many_redirects no_location : String → WebError X
  invalid_location : String → WebError X

unfoldable pub matches_host_pattern : String → String → Bool
unfolding ends_with
matches_host_pattern hostname pattern =
    if starts_with pattern "*."
    then ends_with hostname (without_first pattern)
      && ltb (text_length (without_first pattern)) (text_length hostname)
    else hostname == pattern

abbrev pub matches_some : String → List String → Bool
matches_some hostname [] = false
matches_some hostname (p ∷ ps) = matches_host_pattern hostname p || matches_some hostname ps

module _ (platform : Platform) where
  open platform use {parse_url, parse_relative, is_ip, lower}

  unfoldable pub normalize_host_patterns : Option (List String) → List String
  unfolding trim
  normalize_host_patterns none = []
  normalize_host_patterns (some patterns) =
      keep_if (λ p. not (is_empty p)) (map (λ p. lower (trim p)) patterns)

  abbrev unbracketed : String → String
  unbracketed s = if starts_with s "[" && ends_with s "]" then without_last (without_first s) else s

  unfoldable pub normalize_hostname : String → String
  unfolding trim ends_with
  normalize_hostname hostname = unbracketed (lower (trim hostname))

  -- The two parts behind `::ffff:`.
  abbrev mapped_parts : List String → Option String
  mapped_parts (high ∷ low ∷ []) = elim (hextet high) [
    | none ↦ none
    | some h ↦ elim (hextet low) [ none ↦ none | some l ↦ some (dotted h l) ]
  ]
  mapped_parts _ = none

  -- `s.slice("::ffff:".length)`
  abbrev suffix_of : String → String
  suffix_of s = without_first (
      without_first
        (without_first (without_first (without_first (without_first (without_first s))))))

  unfoldable pub parse_ipv4_mapped_ipv6 : String → Option String
  unfolding normalize_hostname hextet dotted split_at
  parse_ipv4_mapped_ipv6 hostname =
      let normalized = normalize_hostname hostname in
      if starts_with normalized "::ffff:"
      then if eqb (is_ip (suffix_of normalized)) 4
        then some (suffix_of normalized)
        else mapped_parts (split_at b':' (suffix_of normalized))
      else none

  abbrev first_part : List String → String
  first_part [] = String.[]
  first_part (p ∷ ps) = p

  -- The lower-case code of the character at a place, 0 behind the end.
  abbrev letter_at : ℕ → String → ℕ
  letter_at n String.[] = 0
  letter_at zero (String.◌∷◌ c s) = lower_code (code c)
  letter_at (suc n) (String.◌∷◌ c s) = letter_at n s

  -- `/^(fc|fd)/i`, `/^fe[89ab]/i`, `/^ff/i`
  abbrev is_local_hextet : String → Bool
  is_local_hextet s =
      eqb (letter_at 0 s) b'f'
      && (eqb (letter_at 1 s) b'c'
          || eqb (letter_at 1 s) b'd'
          || eqb (letter_at 1 s) b'f'
          || (eqb (letter_at 1 s) b'e'
              && (eqb (letter_at 2 s) b'8'
                  || eqb (letter_at 2 s) b'9'
                  || eqb (letter_at 2 s) b'a'
                  || eqb (letter_at 2 s) b'b')))

  abbrev is_private_plain_ipv6 : String → Bool
  is_private_plain_ipv6 normalized =
      if normalized == "::" || normalized == "::1"
      then true
      else if starts_with normalized "::"
      then true
      else is_local_hextet (first_part (split_at b':' normalized))
        || starts_with normalized "2001:db8:"

  unfoldable pub is_private_ipv6 : String → Bool
  unfolding normalize_hostname parse_ipv4_mapped_ipv6 is_private_ipv4 split_at
  is_private_ipv6 hostname =
      let normalized = normalize_hostname hostname in
      elim (parse_ipv4_mapped_ipv6 normalized) [
        | some mapped ↦ is_private_ipv4 mapped
        | none ↦ is_private_plain_ipv6 normalized
      ]

  unfoldable pub is_implicitly_blocked_host : String → Bool
  unfolding normalize_hostname is_private_ipv4 is_private_ipv6 ends_with
  is_implicitly_blocked_host hostname =
      let normalized = normalize_hostname hostname in
      if normalized == "localhost" || ends_with normalized ".localhost"
      then true
      else if eqb (is_ip normalized) 4
      then is_private_ipv4 normalized
      else if eqb (is_ip normalized) 6
      then is_private_ipv6 normalized
      else false

  -- The checks of `assertAllowedUrl` on a parsed URL.
  unfoldable pub check_url : {X : Type 0} → UrlPolicy → Bool → Url → Result (WebError X) Url
  unfolding normalize_hostname is_implicitly_blocked_host matches_host_pattern
  check_url policy allow_private_network parsed =
      let hostname = normalize_hostname parsed.hostname in
      if not (parsed.protocol == "http:") && not (parsed.protocol == "https:")
      then err bad_protocol
      else if matches_some hostname policy.blocked_hosts
      then err (blocked_host hostname)
      else if not allow_private_network && is_implicitly_blocked_host hostname
      then err (internal_host hostname)
      else if ltb 0 (length policy.allowed_hosts)
          && not (matches_some hostname policy.allowed_hosts)
      then err (not_allowed hostname)
      else ok parsed

  unfoldable pub assert_allowed_url :
      {X : Type 0} → String → UrlPolicy → Bool → Result (WebError X) Url
  unfolding check_url
  assert_allowed_url input policy allow_private_network = elim (parse_url input) [
    | none ↦ err invalid_url
    | some parsed ↦ check_url policy allow_private_network parsed
  ]

  -- The loop of `assertResolvedUrlAllowed` over the addresses of a host.
  unfoldable pub check_addresses :
      {X : Type 0} → String → List String → Result (WebError X) (Unit {0})
  unfolding normalize_hostname is_implicitly_blocked_host
  check_addresses hostname [] = ok tt
  check_addresses hostname (resolved ∷ rest) =
      let further = check_addresses hostname rest in
      let address = normalize_hostname resolved in
      if eqb (is_ip address) 0
      then err (not_an_address hostname address)
      else if is_implicitly_blocked_host address
      then err (internal_address hostname address)
      else further
