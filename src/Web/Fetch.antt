-- ===== src/Web/Fetch.antt =====
-- packages/plugin-tools-web/src/index.ts: `fetchWithRedirects` behind the checks of URLs, up to the
-- response that `fetch` goes on with. The answers of the resolver and of the fetcher are parameters,
-- and may differ from call to call.
use generic_ai.Base.{
  ℕ, zero, suc, String, Bool, true, false, ◌||◌, Option, none, some, List, [], ◌∷◌, if◌then◌else◌,
  eqb,
}
use generic_ai.Base.Text.{is_empty}
use generic_ai.Base.Exec.{Result, ok, err}
use generic_ai.Web.Policy.{
  Url, Platform, UrlPolicy, WebError, unresolved, no_addresses, aborted, fetch_failed,
  too_many_redirects, no_location, invalid_location, normalize_hostname, assert_allowed_url,
  check_addresses,
}

-- `resolveWithAbort`: the addresses, or a failure, or an abort meanwhile with its reason.
pub data Lookup (X : Type 0) : Type 0 where
  addresses : List String → Lookup X
  failed : Lookup X
  cut_off : X → Lookup X

-- The `Location` header is absent or a text.
pub record Response : Type 0 where
  pub status : ℕ
  pub location : Option String

-- A call of the fetcher, with the addresses that were looked up just before it, if any were.
pub record Fetched : Type 0 where
  pub url : Url
  pub looked_up : Option (List String)

-- What has gone out to the network, the latest first.
pub record Traffic : Type 0 where
  pub lookups : ℕ
  pub fetches : List Fetched

pub record Redirected : Type 0 where
  pub response : Response
  pub final_url : Url
  pub redirected : Bool

abbrev pub max_redirects : ℕ
max_redirects = 5

unfoldable pub is_redirect_status : ℕ → Bool
is_redirect_status status =
    eqb status 301 || eqb status 302 || eqb status 303 || eqb status 307 || eqb status 308

module _ {X : Type 0} (platform : Platform) (resolver : ℕ → String → Lookup X)
    (fetcher : ℕ → Url → Result X Response) (policy : UrlPolicy)
    (allow_private_network : Bool) where
  open platform use {parse_relative, is_ip}

  abbrev pub checked : String → Lookup X → Result (WebError X) (Option (List String))
  checked hostname (cut_off reason) = err (aborted reason)
  checked hostname failed = err (unresolved hostname)
  checked hostname (addresses []) = err (no_addresses hostname)
  checked hostname (addresses (a ∷ more)) = elim (check_addresses platform hostname (a ∷ more)) [
    | err e ↦ err e
    | ok done ↦ ok (some (a ∷ more))
  ]

  -- The result has the addresses that were looked up.
  unfoldable pub assert_resolved_url_allowed :
      Url → Traffic → Result (WebError X) (Option (List String)) × Traffic
  unfolding normalize_hostname check_addresses
  assert_resolved_url_allowed parsed t =
      let hostname = normalize_hostname platform parsed.hostname in
      if allow_private_network
      then (ok none, t)
      else if eqb (is_ip hostname) 0
      then (checked hostname (resolver t.lookups hostname), record t { lookups = suc t.lookups })
      else (ok none, t)

  -- `await fetcher(currentUrl, …)`; the number of calls so far tells the calls apart.
  abbrev pub count_fetches : List Fetched → ℕ
  count_fetches [] = 0
  count_fetches (f ∷ fs) = suc (count_fetches fs)

  abbrev pub call_fetcher :
      Url → Option (List String) → Traffic → Result (WebError X) Response × Traffic
  call_fetcher url seen t = (
    elim (fetcher (count_fetches t.fetches) url) [ ok r ↦ ok r | err x ↦ err (fetch_failed x) ],
    record t { fetches = record { url = url; looked_up = seen } ∷ t.fetches },
  )

  abbrev pub after_check :
      Url
      → Result (WebError X) (Option (List String)) × Traffic
      → Result (WebError X) Response × Traffic
  after_check url (err e, t) = (err e, t)
  after_check url (ok seen, t) = call_fetcher url seen t

  -- The check and the call of one round.
  unfoldable pub fetch_once : Url → Traffic → Result (WebError X) Response × Traffic
  unfolding assert_resolved_url_allowed
  fetch_once url t = after_check url (assert_resolved_url_allowed url t)

  -- Where a redirect leads; an empty location counts as none.
  unfoldable pub next_url : Url → Response → Result (WebError X) Url
  unfolding assert_allowed_url
  next_url url response = elim response.location [
    | none ↦ err (no_location url.href)
    | some location ↦
        if is_empty location
        then err (no_location url.href)
        else elim (parse_relative location url) [
          | none ↦ err (invalid_location location)
          | some target ↦ assert_allowed_url platform target.href policy allow_private_network
        ]
  ]

  -- The loop, with the redirects that are left; `requested` is the first URL.
  unfoldable pub fetch_rounds :
      ℕ → Url → Url → Bool → Traffic → Result (WebError X) Redirected × Traffic
  unfolding fetch_once next_url is_redirect_status
  fetch_rounds zero requested url redirected t =
      let (answer, t') = fetch_once url t in
      elim answer [
        | err e ↦ (err e, t')
        | ok response ↦
            if is_redirect_status response.status
            then (err (too_many_redirects requested.href), t')
            else (ok (record { response = response; final_url = url; redirected = redirected }), t')
      ]
  fetch_rounds (suc left) requested url redirected t =
      let (answer, t') = fetch_once url t in
      elim answer [
        | err e ↦ (err e, t')
        | ok response ↦
            if is_redirect_status response.status
            then elim (next_url url response) [
              | err e ↦ (err e, t')
              | ok target ↦ fetch_rounds left requested target true t'
            ]
            else (ok (record { response = response; final_url = url; redirected = redirected }), t')
      ]

  unfoldable pub fetch_with_redirects : Url → Traffic → Result (WebError X) Redirected × Traffic
  unfolding fetch_rounds
  fetch_with_redirects url t = fetch_rounds max_redirects url url false t

  -- What `fetch` does up to the response.
  unfoldable pub web_fetch : String → Traffic → Result (WebError X) Redirected × Traffic
  unfolding assert_allowed_url fetch_with_redirects
  web_fetch input t = elim (assert_allowed_url platform input policy allow_private_network) [
    | err e ↦ (err e, t)
    | ok url ↦ fetch_with_redirects url t
  ]

abbrev pub no_traffic : Traffic
no_traffic = record { lookups = 0; fetches = [] }
