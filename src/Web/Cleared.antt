-- ===== src/Web/Cleared.antt =====
-- What it means that packages/plugin-tools-web/src/index.ts may send a request, and that the checks
-- of URLs and addresses see to it.
use text.Mathlib.Text.{◌==◌}
use generic_ai.Base.{
  ℕ, zero, suc, String, ◌≡◌, refl, sym, subst, ◌⊎◌, inl, inr, Bool, true, false, not, ◌&&◌, some,
  List, [], ◌∷◌, length, if_cases, option_cases, ltb, eqb, arith, All,
}
use generic_ai.Base.Exec.{Result, ok, ok-injective}
use generic_ai.Web.Policy.{
  Url, Platform, UrlPolicy, WebError, matches_some, normalize_hostname, is_implicitly_blocked_host,
  check_url, assert_allowed_url, check_addresses,
}
use generic_ai.Web.Fetch.{Fetched}

-- Readings of the tests of `check_url`.
either : (a b : Bool) → (not a && not b) ≡ false → (a ≡ true) ⊎ (b ≡ true)
either true b h = inl refl
either false true h = inr refl
either false false h = cc

guarded : (a b : Bool) → (not a && b) ≡ false → a ≡ false → b ≡ false
guarded true b h e = cc
guarded false b h e = h

short_or : (n : ℕ) (b : Bool) → (ltb 0 n && not b) ≡ false → (n ≡ 0) ⊎ (b ≡ true)
short_or n true h = inr refl
short_or zero false h = inl refl
short_or (suc n) false h = ground arith

module _ (platform : Platform) (policy : UrlPolicy) (allow : Bool) where
  -- What the policy asks of a URL.
  pub record IsAllowed (url : Url) : Type 0 where
    pub scheme : ((url.protocol == "http:") ≡ true) ⊎ ((url.protocol == "https:") ≡ true)
    pub not_blocked :
        matches_some (normalize_hostname platform url.hostname) policy.blocked_hosts ≡ false
    pub not_internal :
        allow ≡ false
        → is_implicitly_blocked_host platform (normalize_hostname platform url.hostname) ≡ false
    pub listed :
        (length policy.allowed_hosts ≡ 0)
        ⊎ (matches_some (normalize_hostname platform url.hostname) policy.allowed_hosts ≡ true)

  -- The text is an address, and of no internal network.
  abbrev pub IsOutside : String → Type 0
  IsOutside a =
      (eqb (platform.is_ip (normalize_hostname platform a)) 0 ≡ false)
      × (is_implicitly_blocked_host platform (normalize_hostname platform a) ≡ false)

  -- A request to a URL that the policy allows; a host by name has just been looked up, and all that
  -- was found lies outside.
  pub record IsCleared (f : Fetched) : Type 0 where
    pub allowed : IsAllowed f.url
    pub outside :
        allow ≡ false
        → eqb (platform.is_ip (normalize_hostname platform f.url.hostname)) 0 ≡ true
        → (a : String) × (more : List String) × (f.looked_up ≡ some (a ∷ more))
          × All IsOutside (a ∷ more)

  module _ {X : Type 0} where
    check_url-IsAllowed :
        (url u : Url)
        → ◌≡◌ {A = Result (WebError X) Url} (check_url platform policy allow url) (ok u)
        → (u ≡ url) × IsAllowed url
    unfolding check_url
    check_url-IsAllowed url u =
        if_cases Proper _ (λ h e. cc)
          (λ scheme.
            if_cases Proper _ (λ h e. cc)
              (λ free.
                if_cases Proper _ (λ h e. cc)
                  (λ outer.
                    if_cases Proper _ (λ h e. cc)
                      (λ on_list e. (
                        sym (ok-injective e),
                        record {
                          scheme = either _ _ scheme;
                          not_blocked = free;
                          not_internal = λ closed. guarded _ _ outer closed;
                          listed = short_or _ _ on_list;
                        },
                      )))))
      where
        Proper : Result (WebError X) Url → Type 0
        Proper r = r ≡ ok u → (u ≡ url) × IsAllowed url

    pub assert_allowed_url-IsAllowed :
        (input : String) (u : Url)
        → ◌≡◌ {A = Result (WebError X) Url} (assert_allowed_url platform input policy allow) (ok u)
        → IsAllowed u
    unfolding assert_allowed_url
    assert_allowed_url-IsAllowed input u =
        option_cases (λ (r : Result (WebError X) Url). r ≡ ok u → IsAllowed u)
          (platform.parse_url input) _ _ (λ none e. cc)
          (λ parsed at e.
            let (same, allowed) = check_url-IsAllowed parsed u e in
            subst IsAllowed (sym same) allowed)

    pub check_addresses-IsOutside :
        (hostname : String) (as' : List String) (done : Unit {0})
        → ◌≡◌ {A = Result (WebError X) (Unit {0})} (check_addresses platform hostname as') (ok done)
        → All IsOutside as'
    unfolding check_addresses
    check_addresses-IsOutside hostname [] done = λ e. tt
    check_addresses-IsOutside hostname (a ∷ more) done =
        if_cases (λ (r : Result (WebError X) (Unit {0})). r ≡ ok done → All IsOutside (a ∷ more)) _
          (λ h e. cc)
          (λ number.
            if_cases
              (λ (r : Result (WebError X) (Unit {0})). r ≡ ok done → All IsOutside (a ∷ more)) _
              (λ h e. cc)
              (λ outer e. ((number, outer), check_addresses-IsOutside hostname more done e)))
