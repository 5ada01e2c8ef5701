-- ===== src/Web/Redirects.antt =====
-- Whatever the network answers, `web_fetch` of packages/plugin-tools-web/src/index.ts sends requests
-- only to URLs that its policy allows, redirects included.
use generic_ai.Base.{
  ℕ, zero, suc, ◌+◌, ◌≤◌, String, ◌≡◌, refl, sym, subst, ◌∙◌, inl, inr, Bool, true, false, Option,
  none, some, List, [], ◌∷◌, length, if◌then◌else◌, if_cases, option_cases, eqb, arith, All, In,
}
use generic_ai.Base.Text.{is_empty}
use generic_ai.Base.Exec.{Result, ok, err, result_cases}
use generic_ai.Web.Address.{Octets, parse_octets}
use generic_ai.Web.Blocks.{AreBytes, address, in_some, special_blocks, is_private_ipv4-special}
use generic_ai.Web.Policy.{
  Url, Platform, UrlPolicy, WebError, normalize_hostname, is_implicitly_blocked_host,
  assert_allowed_url, check_addresses,
}
use generic_ai.Web.Fetch.{
  Lookup, addresses, failed, cut_off, Response, Fetched, Traffic, Redirected, max_redirects,
  is_redirect_status, checked, assert_resolved_url_allowed, after_check, fetch_once, next_url,
  fetch_rounds, fetch_with_redirects, web_fetch, no_traffic,
}
use generic_ai.Web.Cleared.{
  IsAllowed, IsOutside, IsCleared, assert_allowed_url-IsAllowed, check_addresses-IsOutside,
}

module _ (platform : Platform) (policy : UrlPolicy) (allow : Bool) {X : Type 0}
    (resolver : ℕ → String → Lookup X) (fetcher : ℕ → Url → Result X Response) where
  abbrev Seen : Url → Result (WebError X) (Option (List String)) → Type 0
  Seen url (err e) = Unit
  Seen url (ok seen) =
      allow ≡ false
      → eqb (platform.is_ip (normalize_hostname platform url.hostname)) 0 ≡ true
      → (a : String) × (more : List String) × (seen ≡ some (a ∷ more))
        × All (IsOutside platform policy allow) (a ∷ more)

  checked-Seen :
      (url : Url) (hostname : String) (l : Lookup X)
      → Seen url (checked platform resolver fetcher policy allow hostname l)
  checked-Seen url hostname (cut_off reason) = tt
  checked-Seen url hostname failed = tt
  checked-Seen url hostname (addresses []) = tt
  checked-Seen url hostname (addresses (a ∷ more)) =
      result_cases (Seen url) (check_addresses platform hostname (a ∷ more)) _ _ (λ e at. tt)
        (λ done at closed named. (
          a,
          more,
          refl,
          check_addresses-IsOutside platform policy allow hostname (a ∷ more) done at,
        ))

  resolved-Seen :
      (url : Url) (t : Traffic)
      → Seen url (assert_resolved_url_allowed platform resolver fetcher policy allow url t).0
        × ((assert_resolved_url_allowed platform resolver fetcher policy allow url t).1.fetches
            ≡ t.fetches)
  unfolding assert_resolved_url_allowed
  resolved-Seen url t =
      if_cases Good allow {x = (ok none, t)} (λ on. (λ off named. cc, refl))
        (λ off.
          if_cases Good (eqb (platform.is_ip (normalize_hostname platform url.hostname)) 0)
            {y = (ok none, t)} (λ named. (checked-Seen url _ _, refl))
            (λ direct. (λ closed named. cc, refl)))
    where
      Good : Result (WebError X) (Option (List String)) × Traffic → Type 0
      Good (r, t') = Seen url r × (t'.fetches ≡ t.fetches)

  -- The requests so far are cleared, and at most `n`.
  abbrev Within : ℕ → Traffic → Type 0
  Within n t = All (IsCleared platform policy allow) t.fetches × (length t.fetches ≤ n)

  after_check-Within :
      (url : Url) (n : ℕ) (r : Result (WebError X) (Option (List String)) × Traffic)
      → IsAllowed platform policy allow url
      → Seen url r.0
      → Within n r.1
      → Within (suc n) (after_check platform resolver fetcher policy allow url r).1
  after_check-Within url n (err e, t) ok_url seen w = (w.0, omega arith)
  after_check-Within url n (ok looked_up, t) ok_url seen w =
      ((record { allowed = ok_url; outside = seen }, w.0), omega arith)

  fetch_once-Within :
      (url : Url) (n : ℕ) (t : Traffic)
      → IsAllowed platform policy allow url
      → Within n t
      → Within (suc n) (fetch_once platform resolver fetcher policy allow url t).1
  unfolding fetch_once
  fetch_once-Within url n t allowed w =
      let (seen, same) = resolved-Seen url t in
      after_check-Within url n _ allowed seen
        (subst (λ fs. All (IsCleared platform policy allow) fs × (length fs ≤ n)) (sym same) w)

  next_url-IsAllowed :
      (url : Url) (response : Response) (target : Url)
      → next_url platform resolver fetcher policy allow url response ≡ ok target
      → IsAllowed platform policy allow target
  unfolding next_url
  next_url-IsAllowed url response target =
      option_cases Leads response.location _ _ (λ none e. cc)
        (λ location at.
          if_cases Leads (is_empty location) (λ h e. cc)
            (λ h.
              option_cases Leads (platform.parse_relative location url) _ _ (λ none e. cc)
                (λ u parsed e. assert_allowed_url-IsAllowed platform policy allow u.href target e)))
    where
      Leads : Result (WebError X) Url → Type 0
      Leads r = r ≡ ok target → IsAllowed platform policy allow target

  fetch_rounds-Within :
      (left n : ℕ) (requested url : Url) (redirected : Bool) (t : Traffic)
      → IsAllowed platform policy allow url
      → Within n t
      → Within
          (suc left + n)
          (fetch_rounds platform resolver fetcher policy allow left requested url redirected t).1
  unfolding fetch_rounds
  fetch_rounds-Within zero n requested url redirected t allowed w =
      result_cases Ends (fetch_once platform resolver fetcher policy allow url t).0 _ _
        (λ e at. sent)
        (λ response at. if_cases Ends (is_redirect_status response.status) (λ h. sent) (λ h. sent))
    where
      Ends : Result (WebError X) Redirected × Traffic → Type 0
      Ends r = Within (1 + n) r.1

      sent : Within (1 + n) (fetch_once platform resolver fetcher policy allow url t).1
      sent = let (all, few) = fetch_once-Within url n t allowed w in (all, omega (arith, few))
  fetch_rounds-Within (suc left) n requested url redirected t allowed w =
      result_cases Ends (fetch_once platform resolver fetcher policy allow url t).0 _ _
        (λ e at. sent)
        (λ response at.
          if_cases Ends (is_redirect_status response.status)
            (λ h.
              result_cases Ends (next_url platform resolver fetcher policy allow url response) _ _
                (λ e at'. sent)
                (λ target at'.
                  let (all, few) =
                    fetch_rounds-Within left (suc n) requested target true after
                      (next_url-IsAllowed url response target at') once in
                  (all, omega (arith, few))))
            (λ h. sent))
    where
      Ends : Result (WebError X) Redirected × Traffic → Type 0
      Ends r = Within (suc (suc left) + n) r.1

      after : Traffic
      after = (fetch_once platform resolver fetcher policy allow url t).1

      once : Within (suc n) after
      once = fetch_once-Within url n t allowed w

      sent : Within (suc (suc left) + n) after
      sent = (once.0, omega (arith, once.1))

  -- Whatever the resolver and the fetcher answer, and wherever redirects lead: `web_fetch` makes at
  -- most six requests, each to a URL whose scheme and host the policy allows and, unless private
  -- networks are allowed, whose host is not internal; a host by name has just been looked up, and
  -- every address that was found is an address outside the internal networks.
  pub web_fetch-IsCleared :
      (input : String)
      → let sent = (web_fetch platform resolver fetcher policy allow input no_traffic).1.fetches in
        All (IsCleared platform policy allow) sent × (length sent ≤ suc max_redirects)
  unfolding web_fetch fetch_with_redirects
  web_fetch-IsCleared input =
      result_cases
        (λ (r : Result (WebError X) Redirected × Traffic).
          All (IsCleared platform policy allow) r.1.fetches
          × (length r.1.fetches ≤ suc max_redirects))
        (assert_allowed_url platform input policy allow) _ _ (λ e at. (tt, omega arith))
        (λ url at.
          fetch_rounds-Within max_redirects 0 url url false no_traffic
            (assert_allowed_url-IsAllowed platform policy allow input url at) (tt, omega arith))

-- What the check of a host reads: it normalises the host once more.
abbrev pub host_of : Platform → Url → String
host_of platform url = normalize_hostname platform (normalize_hostname platform url.hostname)

-- The second of three answers, where the choice is none of the others.
second_test :
    (a b x y : Bool) → (if a then true else if b then x else y) ≡ false → b ≡ true → x ≡ false
second_test true b x y h e = cc
second_test false true x y h e = h
second_test false false x y h e = cc

cleared-outside :
    (platform : Platform) (policy : UrlPolicy) (url : Url) (o : Octets)
    → IsAllowed platform policy false url
    → eqb (platform.is_ip (host_of platform url)) 4 ≡ true
    → parse_octets (host_of platform url) ≡ some o
    → AreBytes o
    → in_some (address o) special_blocks ≡ false
unfolding is_implicitly_blocked_host
cleared-outside platform policy url o allowed ip4 parsed bytes =
    sym (is_private_ipv4-special (host_of platform url) o parsed bytes)
    ∙ second_test _ _ _ _ (allowed.not_internal refl) ip4

In-All : {A : Type 0} (P : A → Type 0) (x : A) (xs : List A) → All P xs → In x xs → P x
In-All P x [] h i = absurd i
In-All P x (y ∷ ys) h (inl e) = subst P (sym e) h.0
In-All P x (y ∷ ys) h (inr i) = In-All P x ys h.1 i

-- Unless private networks are allowed, no request of `web_fetch`, redirects included, goes to a host
-- that is an IPv4 address of one of the special networks.
pub web_fetch-public :
    {X : Type 0} (platform : Platform) (policy : UrlPolicy) (resolver : ℕ → String → Lookup X)
    (fetcher : ℕ → Url → Result X Response) (input : String) (f : Fetched) (o : Octets)
    → In f (web_fetch platform resolver fetcher policy false input no_traffic).1.fetches
    → eqb (platform.is_ip (host_of platform f.url)) 4 ≡ true
    → parse_octets (host_of platform f.url) ≡ some o
    → AreBytes o
    → in_some (address o) special_blocks ≡ false
web_fetch-public platform policy resolver fetcher input f o sent ip4 parsed bytes =
    cleared-outside platform policy f.url o (cleared.allowed) ip4 parsed bytes
  where
    cleared : IsCleared platform policy false f
    cleared =
        In-All (IsCleared platform policy false) f _
          (web_fetch-IsCleared platform policy false resolver fetcher input).0 sent
