-- ===== src/Delegation/Fitting.antt =====
-- What each `delegate` of `delegateMany`, packages/core/src/session/delegation.ts, has come to, at
-- its beginning and behind each step.
use generic_ai.Base.{
  ℕ, String, ◌≡◌, ◌⊎◌, inl, inr, refl, sym, ◌∙◌, ap, subst, Bool, true, false, none, some, Option,
  List, [], ◌∷◌, is_some, Option-cases,
}
use generic_ai.Base.Dict.{Dict, lookup, has}
use generic_ai.Base.Exec.{Result, ok}
use generic_ai.Session.Types.{
  SessionRecord, SessionError, unknown_session, terminal_parent, already_exists,
}
use generic_ai.Session.{Orchestrator, is_live}
use generic_ai.Session.Linked.{links_at}
use generic_ai.Session.Invariant.{IsValid}
use generic_ai.Delegation.{
  Request, Thrown, abort_error, plain_error, thrown_value, session_error, DelegationResult,
  Coordinator, Ends, keep_record, terminalize_failure, to_delegation_result,
}
use generic_ai.Delegation.Ended.{
  HasEnded, has_ended, FailsAs, settle_outcome-HasEnded, terminalize_failure-HasEnded,
}
use generic_ai.Delegation.Keeping.{
  Keeps, Keeps-refl, terminalize_failure-Keeps, settle_outcome-Keeps,
}
use generic_ai.Delegation.Many.{
  Delegation, rejected, running, returned, finished, await_executor, settle_one,
}

-- Why a child session was refused.
abbrev pub Refusal : String → SessionError → Type 0
Refusal parent e =
    (e ≡ unknown_session parent)
    ⊎ ((e ≡ terminal_parent parent) ⊎ ((id : String) × (e ≡ already_exists id)))

-- From `b` to `b1` no session is removed.
abbrev pub Grows : {V : Type 0} → Orchestrator V → Orchestrator V → Type 0
Grows b b1 = (p : String) → has p b.sessions ≡ true → has p b1.sessions ≡ true

-- In `s` there is a session below the parent that came between `b` and `b1`.
pub record IsChild {V : Type 0} (parent : String) (b b1 s : Orchestrator V) (id : String)
    : Type 0 where
  pub new : has id b.sessions ≡ false
  pub made : has id b1.sessions ≡ true
  pub there : has id s.sessions ≡ true
  pub named : (links_at s.sessions id).0 ≡ some parent

pub IsChild-Keeps :
    {V : Type 0} (parent : String) (b b1 s t : Orchestrator V) (id : String)
    → Keeps s t
    → IsChild parent b b1 s id
    → IsChild parent b b1 t id
IsChild-Keeps parent b b1 s t id k h = record {
  new = h.new;
  made = h.made;
  there = k.there id h.there;
  named = k.named id h.there ∙ h.named;
}

-- A delegation of a request was refused its child, waits for the child that it has made, or has
-- returned the result of that child, which has ended.
pub data Fits {V : Type 0} (parent : String) (b b1 : Orchestrator V) (request : Request V)
    (s : Orchestrator V) : Delegation V → Type 0 where
  is_refused : (e : SessionError) → Refusal parent e → Fits parent b b1 request s (rejected e)
  is_running :
      (id : String) → IsChild parent b b1 s id → Fits parent b b1 request s (running request id)
  is_returned :
      (result : DelegationResult V) (r : SessionRecord V)
      → result ≡ to_delegation_result r request
      → lookup r.id s.sessions ≡ some r
      → is_live r ≡ false
      → IsChild parent b b1 s r.id
      → Fits parent b b1 request s (returned result)

-- The delegations fit the requests, one by one and in order; each child came when those before it
-- were there.
pub data AllFit {V : Type 0} (parent : String) (s : Orchestrator V)
    : Orchestrator V → List (Request V) → List (Delegation V) → Type 0 where
  none_left : (b : Orchestrator V) → AllFit parent s b [] []
  one_fits :
      (b b1 : Orchestrator V) (request : Request V) (d : Delegation V) (requests : List (Request V))
      (ds : List (Delegation V))
      → Grows b b1
      → Fits parent b b1 request s d
      → AllFit parent s b1 requests ds
      → AllFit parent s b (request ∷ requests) (d ∷ ds)

abbrev pub is_open : {V : Type 0} → Delegation V → Bool
is_open (rejected e) = false
is_open (running request id) = true
is_open (returned r) = false

module _ {V : Type 0} (parent : String) where
  pub Fits-Keeps :
      (b b1 : Orchestrator V) (request : Request V) (s t : Orchestrator V)
      → Keeps s t
      → (d : Delegation V) → Fits parent b b1 request s d
      → Fits parent b b1 request t d
  Fits-Keeps b b1 request s t k d (is_refused e why) = is_refused e why
  Fits-Keeps b b1 request s t k d (is_running id h) =
      is_running id (IsChild-Keeps parent b b1 s t id k h)
  Fits-Keeps b b1 request s t k d (is_returned result r e found idle h) =
      is_returned result r e (k.same r.id r found idle) idle
        (IsChild-Keeps parent b b1 s t r.id k h)

  pub AllFit-Keeps :
      (s t : Orchestrator V)
      → Keeps s t
      → (b : Orchestrator V) (requests : List (Request V)) (ds : List (Delegation V))
      → AllFit parent s b requests ds
      → AllFit parent t b requests ds
  AllFit-Keeps s t k b requests ds (none_left _) = none_left b
  AllFit-Keeps s t k b requests ds (one_fits _ b1 request d rest es grow f fs) =
      one_fits b b1 request d rest es grow (Fits-Keeps b b1 request s t k d f)
        (AllFit-Keeps s t k b1 rest es fs)

-- One delegation has gone on from `s`: it fits still and keeps the sessions.
pub record GoesOn {V : Type 0} (parent : String) (b b1 : Orchestrator V) (request : Request V)
    (s : Orchestrator V) (x : Delegation V × Coordinator V) : Type 0 where
  pub keeps : Keeps s x.1.orchestrator
  pub fits : Fits parent b b1 request x.1.orchestrator x.0

module _ {V : Type 0} (parent : String) (request : Request V) where
  -- A child that has ended gives a result.
  finished-GoesOn :
      (b b1 : Orchestrator V) (id : String) (records : Dict (DelegationResult V))
      (s : Orchestrator V) (P : SessionRecord V → Type 0) (x : Ends V)
      → Keeps s x.1
      → IsChild parent b b1 s id
      → HasEnded id P x
      → GoesOn parent b b1 request s (finished (keep_record request records x))
        × (is_open (finished (keep_record request records x)).0 ≡ false)
  finished-GoesOn b b1 id records s P x k h (has_ended view r t w found idle shown how) = (
    record {
      keeps = k;
      fits =
          is_returned _ r (ap (λ q. to_delegation_result q request) shown)
            (subst (λ i. lookup i t.sessions ≡ some r) (sym (w.sound id r found).keyed) found) idle
            (subst (IsChild parent b b1 t) (sym (w.sound id r found).keyed)
              (IsChild-Keeps parent b b1 s t id k h));
    },
    refl,
  )

  thrown-GoesOn :
      (b : Orchestrator V) (id : String) (records : Dict (DelegationResult V)) (s : Orchestrator V)
      (x : Ends V)
      → Keeps s x.1
      → IsChild parent b s s id
      → HasEnded id (λ q. Unit {0}) x
      → let y = finished (keep_record request records x) in
        GoesOn parent b y.1.orchestrator request s y
  thrown-GoesOn b id records s x k h (has_ended view r t w found idle shown how) =
      (finished-GoesOn b t id records s (λ q. Unit {0}) (ok view, t) k
        (record { new = h.new; made = k.there id h.there; there = h.there; named = h.named })
        (has_ended view r t w found idle shown how)).0

  module _ (now : ℕ → ℕ) (id_factory : ℕ → String) where
    -- The child came behind `b`; it is there when the delegation goes on.
    pub await-GoesOn :
        (b : Orchestrator V) (id : String) (records : Dict (DelegationResult V))
        (thrown : Option Thrown) (s : Orchestrator V)
        → IsValid s.sessions
        → IsChild parent b s s id
        → let y = await_executor now id_factory request id records thrown s in
          GoesOn parent b y.1.orchestrator request s y
    await-GoesOn b id records none s v h = record { keeps = Keeps-refl s v; fits = is_running id h }
    await-GoesOn b id records (some thrown) s v h = elim (Option-cases (lookup id s.sessions)) [
      | inl missing ↦ cc (h.there, ap is_some missing)
      | inr (r, found) ↦
          let x = terminalize_failure now id_factory id thrown s in
          let k : Keeps s x.1 = terminalize_failure-Keeps now id_factory id thrown s r found v in
          thrown-GoesOn b id records s x k h (
            terminalize_failure-HasEnded now id_factory id (λ q. Unit {0}) s v r found thrown
              (λ idle. tt) (λ live. nothing_more id s v r found thrown))
    ]
      where
        nothing_more :
            (id : String) (s : Orchestrator V) (v : IsValid s.sessions) (r : SessionRecord V)
            (found : lookup id s.sessions ≡ some r) (thrown : Thrown)
            → FailsAs now id_factory id (λ q. Unit {0}) s v r found thrown
        nothing_more id s v r found (abort_error message) = tt
        nothing_more id s v r found (plain_error name message stack) = tt
        nothing_more id s v r found (thrown_value t) = tt
        nothing_more id s v r found (session_error x) = tt

    pub settle_one-GoesOn :
        (b b1 : Orchestrator V) (outcome : Result Thrown V) (c : Coordinator V)
        → IsValid c.orchestrator.sessions
        → (d : Delegation V) → Fits parent b b1 request c.orchestrator d
        → GoesOn parent b b1 request c.orchestrator (settle_one now id_factory outcome c d)
          × (is_open (settle_one now id_factory outcome c d).0 ≡ false)
    unfolding settle_one
    settle_one-GoesOn b b1 outcome c v d (is_refused e why) =
        (record { keeps = Keeps-refl c.orchestrator v; fits = is_refused e why }, refl)
    settle_one-GoesOn b b1 outcome c v d (is_running id h) =
        elim (Option-cases (lookup id c.orchestrator.sessions)) [
          | inl missing ↦ cc (h.there, ap is_some missing)
          | inr (r, found) ↦
              finished-GoesOn b b1 id c.records c.orchestrator _ _
                (settle_outcome-Keeps now id_factory id outcome c.orchestrator r found v) h
                (settle_outcome-HasEnded now id_factory id c.orchestrator v r found outcome)
        ]
    settle_one-GoesOn b b1 outcome c v d (is_returned result r e found idle h) = (
      record { keeps = Keeps-refl c.orchestrator v; fits = is_returned result r e found idle h },
      refl,
    )
