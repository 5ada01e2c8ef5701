-- ===== src/Delegation/Ended.antt =====
-- How the end of `delegate` in packages/core/src/session/delegation.ts ends the child session.
use generic_ai.Base.{
  ℕ, String, ◌≡◌, refl, sym, ◌∙◌, ap, Bool, true, false, none, some, eq_refl, ◌==◌, if◌then◌else◌,
  Bool-cases, subst, inl, inr,
}
use mathlib.Core.Option.{some-injective}
use generic_ai.Base.Dict.{Dict, lookup, lookup-set}
use generic_ai.Base.Exec.{Result, ok, err}
use generic_ai.Session.Types.{SessionRecord, SessionSnapshot, fields_of, active_descendant}
use generic_ai.Session.{Orchestrator, is_live}
use generic_ai.Session.Methods.{as_succeeded}
use generic_ai.Session.Forest.{live_of, active_at}
use generic_ai.Session.Reading.{get_session-Shows}
use generic_ai.Session.Invariant.{IsValid, Descendant}
use generic_ai.Session.Ending.{
  failed_record, cancelled_record, Ending, fail_session-Ending, cancel_session-Ending,
}
use generic_ai.Session.Completing.{Completion, complete_session-Completion}
use generic_ai.Session.Completing
use generic_ai.Delegation.{
  Thrown, abort_error, plain_error, thrown_value, session_error, Ends, end_failed,
  terminalize_success, terminalize_failure, catch_failure, settle_outcome, abort_reason, failure_of,
}

abbrev is_abort : Thrown → Bool
is_abort (abort_error message) = true
is_abort _ = false

-- What becomes of the child that has the record `q` among the sessions `d` when its executor is over
-- with this outcome.
pub data Settled {V : Type 0} (d : Dict (SessionRecord V)) (outcome : Result Thrown V)
    (q : SessionRecord V) : SessionRecord V → Type 0 where
  by_executor : is_live q ≡ false → Settled d outcome q q
  succeeds :
      (time : ℕ) (value : V)
      → is_live q ≡ true
      → outcome ≡ ok value
      → ((x : String) → Descendant d q.id x → active_at d x ≡ false)
      → Settled d outcome q (as_succeeded q time (record { result = some value; metadata = none }))
  success_refused :
      (time : ℕ) (value : V) (y : String)
      → is_live q ≡ true
      → outcome ≡ ok value
      → Descendant d q.id y
      → active_at d y ≡ true
      → Settled d outcome q (
          failed_record q time (record {
            error = failure_of (session_error (active_descendant q.id y));
            metadata = none;
          }))
  aborted :
      (time : ℕ) (message : String)
      → is_live q ≡ true
      → outcome ≡ err (abort_error message)
      → Settled d outcome q
          (cancelled_record q time (record { reason = abort_reason message; metadata = none }))
  fails :
      (time : ℕ) (thrown : Thrown)
      → is_live q ≡ true
      → outcome ≡ err thrown
      → is_abort thrown ≡ false
      → Settled d outcome q
          (failed_record q time (record { error = failure_of thrown; metadata = none }))

-- The session has ended in this way, as the snapshot shows.
pub data HasEnded {V : Type 0} (id : String) (P : SessionRecord V → Type 0) : Ends V → Type 0 where
  has_ended :
      (view : SessionSnapshot V) (r : SessionRecord V) (s : Orchestrator V)
      → IsValid s.sessions
      → lookup id s.sessions ≡ some r
      → is_live r ≡ false
      → fields_of view ≡ r
      → P r
      → HasEnded id P (ok view, s)

pub if_refl : {A : Type 0} (id : String) (x y : A) → (if id == id then x else y) ≡ x
if_refl id x y = rw (eq_refl id) refl

module _ {V : Type 0} (now : ℕ → ℕ) (id_factory : ℕ → String) (id : String)
    (P : SessionRecord V → Type 0) where
  Ending-HasEnded :
      (f : SessionRecord V → SessionRecord V) (g : SessionRecord V → String) (s : Orchestrator V)
      (r : SessionRecord V)
      → ((q : SessionRecord V) → is_live (f q) ≡ false)
      → lookup id s.sessions ≡ some r
      → is_live r ≡ true
      → P (f r)
      → (x : Ends V) → Ending id f g s x
      → HasEnded id P x
  Ending-HasEnded f g s r idle e live h x (Ending.ends q view t found l k shown) =
      has_ended view (f q) t k.valid k.here (idle q) shown
        (subst (λ n. P (f n)) (some-injective _ _ (sym e ∙ found)) h)
  Ending-HasEnded f g s r idle e live h x (Ending.no_session found) = cc (e, found)
  Ending-HasEnded f g s r idle e live h x (Ending.was_terminal q found l) =
      cc (ap live_of e, ap live_of found, live, l)

  module _ (s : Orchestrator V) (v : IsValid s.sessions) (r : SessionRecord V)
      (e : lookup id s.sessions ≡ some r) where
    -- What is to be shown of each way to end the child by a failure.
    abbrev pub FailsAs : Thrown → Type 0
    FailsAs (abort_error message) = P (
        cancelled_record r (now s.now_calls)
          (record { reason = abort_reason message; metadata = none }))
    FailsAs (plain_error name message stack) = P (
        failed_record r (now s.now_calls)
          (record { error = failure_of (plain_error name message stack); metadata = none }))
    FailsAs (thrown_value t) = P (
        failed_record r (now s.now_calls)
          (record { error = failure_of (thrown_value t); metadata = none }))
    FailsAs (session_error x) = P (
        failed_record r (now s.now_calls)
          (record { error = failure_of (session_error x); metadata = none }))

    end_failed-HasEnded :
        (thrown : Thrown)
        → is_live r ≡ true
        → FailsAs thrown
        → HasEnded id P (end_failed now id_factory id thrown s)
    end_failed-HasEnded (abort_error message) live h =
        Ending-HasEnded _ _ s r (λ q. refl) e live h _
          (cancel_session-Ending now id_factory id s v
            (record { reason = abort_reason message; metadata = none }))
    end_failed-HasEnded (plain_error name message stack) live h =
        Ending-HasEnded _ _ s r (λ q. refl) e live h _ (fail_session-Ending now id_factory id s v _)
    end_failed-HasEnded (thrown_value t) live h =
        Ending-HasEnded _ _ s r (λ q. refl) e live h _ (fail_session-Ending now id_factory id s v _)
    end_failed-HasEnded (session_error x) live h =
        Ending-HasEnded _ _ s r (λ q. refl) e live h _ (fail_session-Ending now id_factory id s v _)

    pub terminalize_failure-HasEnded :
        (thrown : Thrown)
        → (is_live r ≡ false → P r)
        → (is_live r ≡ true → FailsAs thrown)
        → HasEnded id P (terminalize_failure now id_factory id thrown s)
    unfolding terminalize_failure
    terminalize_failure-HasEnded thrown ended fails_as =
        let (view, run, shown) =
          get_session-Shows now v.rank s v.forest v.sound id_factory id r e in
        elim (Bool-cases (is_live r)) [
          | inl live ↦ rw (run, shown, live) (end_failed-HasEnded thrown live (fails_as live))
          | inr idle ↦ rw (run, shown, idle) (has_ended view r s v e idle shown (ended idle))
        ]

module _ {V : Type 0} (now : ℕ → ℕ) (id_factory : ℕ → String) (id : String) (s : Orchestrator V)
    (v : IsValid s.sessions) (r : SessionRecord V) (e : lookup id s.sessions ≡ some r) where
  keyed : r.id ≡ id
  keyed = (v.sound id r e).keyed

  -- A success that the orchestrator refuses becomes a failure.
  caught-HasEnded :
      (result : V)
      → (x : Ends V) → is_live r ≡ true
      → Completion id
          (λ q. as_succeeded q (now s.now_calls) (record { result = some result; metadata = none }))
          s
          x
      → HasEnded id (Settled s.sessions (ok result) r) (catch_failure now id_factory id x)
  caught-HasEnded result x live (Completing.completes q view t found l idle same w shown) =
      has_ended view
        (as_succeeded q (now s.now_calls) (record { result = some result; metadata = none })) t w
        (subst
          (λ d.
            lookup id d
            ≡ some (
                as_succeeded q (now s.now_calls)
                  (record { result = some result; metadata = none })))
          (sym same) (lookup-set id id _ s.sessions ∙ if_refl id _ _))
        refl shown
        (subst
          (λ n.
            Settled s.sessions (ok result) r
              (as_succeeded n (now s.now_calls) (record { result = some result; metadata = none })))
          (some-injective _ _ (sym e ∙ found))
          (succeeds (now s.now_calls) result live refl
            (λ x d. idle x (subst (λ k. Descendant s.sessions k x) keyed d))))
  caught-HasEnded result x live (Completing.blocked q y found l d f k) =
      terminalize_failure-HasEnded now id_factory id _ s v r e
        (session_error (active_descendant id y.id)) (λ idle. cc (live, idle))
        (λ lv.
          subst
            (λ k. Settled s.sessions (ok result) r (
              failed_record r (now s.now_calls) (record {
                error = failure_of (session_error (active_descendant k y.id));
                metadata = none;
              })))
            keyed
            (success_refused (now s.now_calls) result y.id live refl
              (subst (λ k. Descendant s.sessions k y.id) (sym keyed) d) (ap live_of f ∙ k)))
  caught-HasEnded result x live (Completing.no_session found) = cc (e, found)
  caught-HasEnded result x live (Completing.was_terminal q found l) =
      cc (ap live_of e, ap live_of found, live, l)

  terminalize_success-HasEnded :
      (result : V)
      → HasEnded id
          (Settled s.sessions (ok result) r)
          (catch_failure now id_factory id (terminalize_success now id_factory id result s))
  unfolding terminalize_success
  terminalize_success-HasEnded result =
      let (view, run, shown) = get_session-Shows now v.rank s v.forest v.sound id_factory id r e in
      elim (Bool-cases (is_live r)) [
        | inl live ↦
            rw (run, shown, live)
              (caught-HasEnded result _ live (
                complete_session-Completion now id_factory id s
                  (record { result = some result; metadata = none }) v))
        | inr idle ↦ rw (run, shown, idle) (has_ended view r s v e idle shown (by_executor idle))
      ]

  fails_as :
      (thrown : Thrown)
      → is_live r ≡ true
      → FailsAs now id_factory id (Settled s.sessions (err thrown) r) s v r e thrown
  fails_as (abort_error message) live = aborted _ message live refl
  fails_as (plain_error name message stack) live = fails _ _ live refl refl
  fails_as (thrown_value t) live = fails _ _ live refl refl
  fails_as (session_error x) live = fails _ _ live refl refl

  pub settle_outcome-HasEnded :
      (outcome : Result Thrown V)
      → HasEnded id (Settled s.sessions outcome r) (settle_outcome now id_factory id (outcome, s))
  settle_outcome-HasEnded (ok result) = terminalize_success-HasEnded result
  settle_outcome-HasEnded (err thrown) =
      terminalize_failure-HasEnded now id_factory id _ s v r e thrown by_executor (fails_as thrown)
