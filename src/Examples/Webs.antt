-- ===== src/Examples/Webs.antt =====
-- A small network with a redirect into a private one.
use text.Mathlib.Text.{◌==◌}
use generic_ai.Base.{
  ℕ, zero, suc, ◌≤◌, String, ◌≡◌, refl, inl, true, false, Option, none, some, [], ◌∷◌, map, length,
  if◌then◌else◌, All, arith,
}
use generic_ai.Base.Exec.{Result, ok}
use generic_ai.Web.Address.{Octets, parse_octets, is_private_ipv4, dotted}
use generic_ai.Web.Blocks.{in_some, special_blocks, address, is_private_ipv4-special}
use generic_ai.Web.Mapped.{is_private_ipv4-dotted}
use generic_ai.Web.Policy.{Url, Platform, UrlPolicy, is_private_ipv6, matches_host_pattern}
use generic_ai.Web.Fetch.{
  Lookup, addresses, failed, Response, Fetched, max_redirects, web_fetch, no_traffic,
}
use generic_ai.Web.Cleared.{IsCleared}
use generic_ai.Web.Redirects.{web_fetch-IsCleared, web_fetch-public}

abbrev site : Url
site = record { protocol = "https:"; hostname = "site.org"; href = "https://site.org/" }

abbrev server : Url
server = record { protocol = "http:"; hostname = "8.8.8.8"; href = "http://8.8.8.8/" }

abbrev inside : Url
inside = record { protocol = "http:"; hostname = "10.0.0.7"; href = "http://10.0.0.7/" }

abbrev url_of : String → Option Url
url_of text =
    if text == "https://site.org/"
    then some site
    else if text == "http://8.8.8.8/"
    then some server
    else if text == "http://10.0.0.7/"
    then some inside
    else none

abbrev version_of : String → ℕ
version_of text =
    if text == "8.8.8.8"
    then 4
    else if text == "10.0.0.7"
    then 4
    else if text == "::1"
    then 6
    else 0

abbrev toy_platform : Platform
toy_platform = record {
  parse_url = url_of;
  parse_relative = λ text base. url_of text;
  is_ip = version_of;
  lower = λ text. text;
}

abbrev open_policy : UrlPolicy
open_policy = record { allowed_hosts = []; blocked_hosts = "*.bad.org" ∷ [] }

abbrev toy_resolver : ℕ → String → Lookup String
toy_resolver n host = if host == "site.org" then addresses ("8.8.8.8" ∷ []) else failed

-- The site redirects to the server, and the server to the private host.
abbrev toy_fetcher : ℕ → Url → Result String Response
toy_fetcher zero url = ok (record { status = 302; location = some "http://8.8.8.8/" })
toy_fetcher (suc n) url = ok (record { status = 307; location = some "http://10.0.0.7/" })

subdomain_matches : matches_host_pattern "a.bad.org" "*.bad.org" ≡ true
unfolding matches_host_pattern
subdomain_matches = refl

domain_does_not : matches_host_pattern "bad.org" "*.bad.org" ≡ false
unfolding matches_host_pattern
domain_does_not = refl

mapped_text : dotted 0x7f00 1 ≡ "127.0.0.1"
unfolding dotted
mapped_text = refl

local_addresses :
    map
      (is_private_ipv6 toy_platform)
      ("fd00::1" ∷ "FE80::1" ∷ "::ffff:7f00:1" ∷ "2606:4700::1" ∷ [])
    ≡ true ∷ true ∷ true ∷ false ∷ []
unfolding is_private_ipv6
local_addresses = refl

stopped_inside :
    map
      (λ f. f.url.hostname)
      (web_fetch toy_platform toy_resolver toy_fetcher open_policy false "https://site.org/"
        no_traffic).1.fetches
    ≡ "8.8.8.8" ∷ "site.org" ∷ []
unfolding web_fetch
stopped_inside = refl

abbrev private_octets : Octets
private_octets = record { first = 172; second = 20; third = 0; fourth = 9 }

is_private_ipv4-special_example :
    is_private_ipv4 "172.20.0.9" ≡ in_some (address private_octets) special_blocks
unfolding parse_octets
is_private_ipv4-special_example =
    is_private_ipv4-special "172.20.0.9" private_octets refl (omega arith)

is_private_ipv4-dotted_example :
    is_private_ipv4 (dotted 0xa9fe 0xa9fe) ≡ in_some 2852039166 special_blocks
is_private_ipv4-dotted_example = is_private_ipv4-dotted 0xa9fe 0xa9fe (omega arith) (omega arith)

web_fetch-IsCleared_example :
    All
      (IsCleared toy_platform open_policy false)
      (web_fetch toy_platform toy_resolver toy_fetcher open_policy false "https://site.org/"
        no_traffic).1.fetches
    × (length
          (web_fetch toy_platform toy_resolver toy_fetcher open_policy false "https://site.org/"
            no_traffic).1.fetches
        ≤ suc max_redirects)
web_fetch-IsCleared_example =
    web_fetch-IsCleared toy_platform open_policy false toy_resolver toy_fetcher "https://site.org/"

abbrev server_octets : Octets
server_octets = record { first = 8; second = 8; third = 8; fourth = 8 }

abbrev server_request : Fetched
server_request = record { url = server; looked_up = none }

web_fetch-public_example : in_some (address server_octets) special_blocks ≡ false
unfolding web_fetch parse_octets
web_fetch-public_example =
    web_fetch-public toy_platform open_policy toy_resolver toy_fetcher "https://site.org/"
      server_request server_octets (inl refl) refl refl (omega arith)
