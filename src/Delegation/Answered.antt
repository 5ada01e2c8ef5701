-- ===== src/Delegation/Answered.antt =====
-- How `delegateMany` of packages/core/src/session/delegation.ts ends, whatever the executors and the
-- rest of the program call in whichever order.
use generic_ai.Base.{
  ℕ, suc, ◌<◌, String, ◌≡◌, inl, inr, refl, ap, ◌∙◌, Bool, true, false, not, ◌&&◌, none, some, List,
  [], ◌∷◌, length, arith, Option-cases, Bool-cases, eq_iff, ◌==◌, contains, map, sym, subst,
}
use generic_ai.Base.Exec.{ok, err}
use generic_ai.Session.Types.{SessionRecord, SessionError}
use generic_ai.Session.{Orchestrator, is_live}
use generic_ai.Base.Dict.{lookup, has}
use generic_ai.Session.Linked.{links_of}
use generic_ai.Session.Invariant.{IsValid}
use generic_ai.Delegation.{Request, DelegationResult, Coordinator, to_delegation_result}
use generic_ai.Delegation.Many.{
  Delegation, Many, Beginning, Step, first_rejected, all_results, and_result, fulfilled, answer_of,
  answer, delegate_many, steps,
}
use generic_ai.Delegation.Fitting.{
  Refusal, is_refused, is_running, is_returned, AllFit, Grows, none_left, one_fits,
}
use generic_ai.Delegation.Standing.{closes, open_at, Stands, steps-Stands, begun-Stands}

-- The results of the requests, in order, each of a child of its own that came behind `b` and has
-- ended.
pub data AllEnded {V : Type 0} (parent : String) (b s : Orchestrator V)
    : List (Request V) → List (DelegationResult V) → Type 0 where
  no_more : AllEnded parent b s [] []
  one_ended :
      (request : Request V) (r : SessionRecord V) (requests : List (Request V))
      (results : List (DelegationResult V))
      → lookup r.id s.sessions ≡ some r
      → is_live r ≡ false
      → r.parent_session_id ≡ some parent
      → has r.id b.sessions ≡ false
      → contains (map (λ q. q.session_id) results) r.id ≡ false
      → AllEnded parent b s requests results
      → AllEnded parent b s (request ∷ requests) (to_delegation_result r request ∷ results)

-- What the promise has come to.
pub data Answered {V : Type 0} (parent : String) (b : Orchestrator V) (requests : List (Request V))
    (m : Many V) : Type 0 where
  fulfils :
      (results : List (DelegationResult V))
      → answer m ≡ some (ok results)
      → AllEnded parent b m.coordinator.orchestrator requests results
      → Answered parent b requests m
  refuses :
      (e : SessionError) → answer m ≡ some (err e) → Refusal parent e → Answered parent b requests m

module _ {V : Type 0} (now : ℕ → ℕ) (id_factory : ℕ → String) (parent : String) where
  -- What is new behind a later state is new, and none of it is there already.
  AllEnded-earlier :
      (b b1 s : Orchestrator V)
      → Grows b b1
      → (requests : List (Request V)) (results : List (DelegationResult V))
      → AllEnded parent b1 s requests results
      → AllEnded parent b s requests results
  AllEnded-earlier b b1 s grow requests results no_more = no_more
  AllEnded-earlier b b1 s grow requests results
        (one_ended request r rest others found idle named new apart ended) =
      one_ended request r rest others found idle named (not_there b b1 grow r.id new) apart
        (AllEnded-earlier b b1 s grow rest others ended)
    where
      not_there :
          (b b1 : Orchestrator V)
          → Grows b b1
          → (p : String) → has p b1.sessions ≡ false
          → has p b.sessions ≡ false
      not_there b b1 grow p absent = elim (Bool-cases (has p b.sessions)) [
        | inl there ↦ cc (grow p there, absent)
        | inr new ↦ new
      ]

  AllEnded-apart :
      (b s : Orchestrator V) (p : String)
      → has p b.sessions ≡ true
      → (requests : List (Request V)) (results : List (DelegationResult V))
      → AllEnded parent b s requests results
      → contains (map (λ q. q.session_id) results) p ≡ false
  unfolding to_delegation_result
  AllEnded-apart b s p there requests results no_more = refl
  AllEnded-apart b s p there requests results
        (one_ended request r rest others found idle named new apart ended) =
      elim (Bool-cases (r.id == p)) [
        | inl same ↦ cc (subst (λ k. has k b.sessions ≡ false) ((eq_iff r.id p).0 same) new, there)
        | inr other ↦ ground (arith, other, AllEnded-apart b s p there rest others ended)
      ]

  -- When none is refused or open, all have results.
  all-AllEnded :
      (s b : Orchestrator V) (requests : List (Request V)) (ds : List (Delegation V))
      → AllFit parent s b requests ds
      → first_rejected ds ≡ none
      → ((j : ℕ) → j < length requests → open_at j ds ≡ false)
      → (results : List (DelegationResult V)) × (all_results ds ≡ some results)
        × AllEnded parent b s requests results
  all-AllEnded s b requests ds (none_left _) e over = ([], refl, no_more)
  all-AllEnded s b requests ds (one_fits _ b1 request d rest es grow (is_refused x why) fs) e over =
      cc
  all-AllEnded s b requests ds (one_fits _ b1 request d rest es grow (is_running id h) fs) e over =
      cc (over 0 (omega arith))
  all-AllEnded s b requests ds
        (one_fits _ b1 request d rest es grow (is_returned result r same found idle h) fs) e over =
      let (results, all, ended) =
        all-AllEnded s b1 rest es fs e (λ j lt. over (suc j) (omega arith)) in
      (
        to_delegation_result r request ∷ results,
        ap (and_result result) all ∙ ap (λ q. some (q ∷ results)) same,
        one_ended request r rest results found idle (sym (ap (λ o. (links_of o).0) found) ∙ h.named)
            h.new (AllEnded-apart b1 s r.id h.made rest results ended)
            (AllEnded-earlier b b1 s grow rest results ended),
      )

  Stands-Answered :
      (b : Orchestrator V) (requests : List (Request V)) (m : Many V)
      → Stands parent b requests m
      → ((j : ℕ) → j < length requests → open_at j m.delegations ≡ false)
      → Answered parent b requests m
  Stands-Answered b requests m st over = elim (Option-cases m.failure) [
    | inl none_failed ↦
        let (results, all, ended) =
          all-AllEnded m.coordinator.orchestrator b requests m.delegations st.fit
            (st.unrefused none_failed) over in
        fulfils results (ap (λ o. answer_of o m.delegations) none_failed ∙ ap fulfilled all) ended
    | inr (e, failed) ↦ refuses e (ap (λ o. answer_of o m.delegations) failed) (st.refused e failed)
  ]

  -- On a valid state, once the executor of every request has settled, whatever the executors and the
  -- rest of the program have called of the orchestrator in between and in whichever order the
  -- executors settle: the promise of `delegateMany` has settled and the state is valid. It is
  -- fulfilled with one result for each request, in the order of the requests, each of a child
  -- session of `parent` of its own that was not there at the start, has ended and is still as the
  -- result shows it; or it is rejected because a child
  -- session was refused.
  pub delegate_many-Answered :
      (begins : Beginning V) (requests : List (Request V)) (c : Coordinator V) (ks : List (Step V))
      → IsValid c.orchestrator.sessions
      → ((j : ℕ) → j < length requests → closes j ks ≡ true)
      → let m = steps now id_factory ks (delegate_many now id_factory parent requests begins c) in
        Answered parent c.orchestrator requests m × IsValid m.coordinator.orchestrator.sessions
  delegate_many-Answered begins requests c ks v settled =
      let m = delegate_many now id_factory parent requests begins c in
      let (st, closed) =
        steps-Stands now id_factory parent c.orchestrator requests ks m
          (begun-Stands now id_factory parent begins requests c v) in
      (
        Stands-Answered c.orchestrator requests (steps now id_factory ks m) st
            (λ j lt. closed_now _ _ _ (closed j) (settled j lt)),
        st.valid,
      )
    where
      closed_now : (a b c : Bool) → b ≡ (a && not c) → c ≡ true → b ≡ false
      closed_now a b c e h = ground arith
