-- ===== src/RunModes/Quiet.antt =====
-- Calls of the session machine of packages/core/src/run-modes/session-machine.ts when no observer
-- throws.
use generic_ai.Base.{
  ℕ, ◌≡◌, ◌≢◌, refl, sym, ap, subst, ◌∙◌, ◌⊎◌, inl, inr, true, false, String, Option, none, some,
  List, [], ◌∷◌, eqb, arith, option_cases, if_cases,
}
use generic_ai.Base.Exec.{Result, ok, err}
use generic_ai.RunModes.Plan.{allowed, is_none, refusal-allowed}
use generic_ai.RunModes.States.{states, find-none, find-some}
use generic_ai.RunModes.Machine.{
  RunSessionState, idle, running, succeeded, failed, cancelled, Detail, absent, RunEvent,
  RunSession, Seed, Machine, RunError, no_session, find, change, with_state, refusal, tell,
  to_parent, notify, announce, transition, start, create_root_session, build_session, built,
  with_built,
}
use generic_ai.RunModes.Refines.{transition-states}

module _ {T X : Type 0} (throws : ℕ → RunEvent T X → Option X)
    (quiet : (o : ℕ) (e : RunEvent T X) → throws o e ≡ none) where
  tell-quiet :
      (os : List ℕ) (e : RunEvent T X) (heard : List (ℕ × RunEvent T X))
      → (tell throws os e heard).0 ≡ ok tt
  unfolding tell
  tell-quiet [] e heard = refl
  tell-quiet (o ∷ os) e heard =
      option_cases (λ (r : Result (RunError X) (Unit {0}) × List (ℕ × RunEvent T X)). r.0 ≡ ok tt)
        (throws o e) _ _ (λ none. tell-quiet os e ((o, e) ∷ heard)) (λ x some. cc (quiet o e))

  notify-quiet :
      (ss : List RunSession) (e : RunEvent T X) (n : ℕ) (heard : List (ℕ × RunEvent T X))
      → (notify throws ss e n heard).0 ≡ ok tt
  unfolding notify
  notify-quiet [] e n heard = refl
  notify-quiet (s ∷ older) e n heard =
      if_cases (λ (r : Result (RunError X) (Unit {0}) × List (ℕ × RunEvent T X)). r.0 ≡ ok tt)
        (eqb s.key n)
        (λ same.
          onward s.parent (tell throws s.observers e heard) (tell-quiet s.observers e heard)
            (λ p h. notify-quiet older e p h))
        (λ other. notify-quiet older e n heard)
    where
      onward :
          (parent : Option ℕ) (r : Result (RunError X) (Unit {0}) × List (ℕ × RunEvent T X))
          → r.0 ≡ ok tt
          → ((p : ℕ) (h : List (ℕ × RunEvent T X)) → (notify throws older e p h).0 ≡ ok tt)
          → (to_parent throws (notify throws older e) parent r).0 ≡ ok tt
      onward parent (err x, h) e' above = cc
      onward none (ok done, h) e' above = refl
      onward (some p) (ok done, h) e' above = above p h

  module _ (now : ℕ → ℕ) where
    pub announce-quiet :
        (n : ℕ) (kind : String) (s : RunSession) (d : Detail T X) (m : Machine T X)
        → (announce throws now n kind s d m).0 ≡ ok tt
    unfolding announce
    announce-quiet n kind s d m = notify-quiet m.sessions _ n m.heard

    -- A state that may follow is taken, and no observer throws.
    pub transition_taken :
        (n : ℕ) (st next : RunSessionState) (kind : String) (d : Detail T X) (m : Machine T X)
        → states m.sessions n ≡ some st
        → allowed st next ≡ true
        → ((transition throws now n next kind d m).0 ≡ ok tt)
          × (states (transition throws now n next kind d m).1.sessions n ≡ some next)
    unfolding transition
    transition_taken n st next kind d m e may = (
      option_cases (λ (r : Result (RunError X) (Unit {0}) × Machine T X). r.0 ≡ ok tt)
          (find n m.sessions) _ _ (λ at. cc (find-none n m.sessions at))
          (λ s at.
            option_cases (λ (r : Result (RunError X) (Unit {0}) × Machine T X). r.0 ≡ ok tt)
              (refusal s.id s.state next) _ _
              (λ free.
                announce-quiet n kind s d
                  (record m { sessions = change n (with_state next) m.sessions }))
              (λ x refused.
                let barred : false ≡ allowed s.state next =
                  sym (ap is_none refused) ∙ refusal-allowed X s.id s.state next in
                cc (find-some n m.sessions s at))),
      (transition-states throws now n next kind d m n).0 ∙ ground (arith, e, may),
    )

    pub transition_refused :
        (n : ℕ) (next : RunSessionState) (kind : String) (d : Detail T X) (m : Machine T X)
        → ((st : RunSessionState) → states m.sessions n ≡ some st → allowed st next ≡ false)
        → (e : RunError X) × (transition throws now n next kind d m ≡ (err e, m))
    unfolding transition
    transition_refused n next kind d m no_way =
        option_cases Throws (find n m.sessions) _ _ (λ at. (no_session n, refl))
          (λ s at.
            option_cases Throws (refusal s.id s.state next) _ _
              (λ free.
                let may : true ≡ allowed s.state next =
                  sym (ap is_none free) ∙ refusal-allowed X s.id s.state next in
                cc (no_way s.state (find-some n m.sessions s at)))
              (λ e refused. (e, refl)))
      where
        Throws : Result (RunError X) (Unit {0}) × Machine T X → Type 0
        Throws r = (e : RunError X) × (r ≡ (err e, m))

-- The machine at the call of the task of a run.
abbrev pub at_task :
    {T X : Type 0}
    → (ℕ → RunEvent T X → Option X)
    → (ℕ → ℕ)
    → (ℕ → String)
    → Seed
    → Machine T X
    → Machine T X
at_task throws now create_id seed m =
    (start throws now m.next_key (create_root_session throws now create_id seed m).1).1

barred :
    (a st : RunSessionState)
    → a ≡ st
    → allowed a succeeded ≡ false
    → allowed a failed ≡ false
    → (allowed st succeeded ≡ false) × (allowed st failed ≡ false)
barred a st e s f =
    (subst (λ x. allowed x succeeded ≡ false) e s, subst (λ x. allowed x failed ≡ false) e f)

-- Whether a session runs; any other state bars it from an end.
pub running_or :
    (o : Option RunSessionState)
    → (o ≡ some running)
      ⊎ ((o ≢ some running)
          × ((st : RunSessionState)
              → o ≡ some st
              → (allowed st succeeded ≡ false) × (allowed st failed ≡ false)))
running_or none = inr (λ e. cc, λ st e. cc)
running_or (some idle) = inr (λ e. cc, λ st e. barred idle st (cc) refl refl)
running_or (some running) = inl refl
running_or (some succeeded) = inr (λ e. cc, λ st e. barred succeeded st (cc) refl refl)
running_or (some failed) = inr (λ e. cc, λ st e. barred failed st (cc) refl refl)
running_or (some cancelled) = inr (λ e. cc, λ st e. barred cancelled st (cc) refl refl)

module _ {T X : Type 0} (throws : ℕ → RunEvent T X → Option X)
    (quiet : (o : ℕ) (e : RunEvent T X) → throws o e ≡ none) (now : ℕ → ℕ)
    (create_id : ℕ → String) where
  pub created_idle :
      (seed : Seed) (m : Machine T X)
      → ((create_root_session throws now create_id seed m).0 ≡ ok tt)
        × (states (create_root_session throws now create_id seed m).1.sessions m.next_key
            ≡ some idle)
  unfolding create_root_session build_session
  created_idle seed m = (
    announce-quiet throws quiet now m.next_key "session-created"
        (built throws now create_id none seed m) absent
        (with_built throws now create_id (built throws now create_id none seed m) seed m),
    unfold announce in unfold states in ground arith,
  )

  pub begun_running :
      (seed : Seed) (m : Machine T X)
      → ((start throws now m.next_key (create_root_session throws now create_id seed m).1).0
          ≡ ok tt)
        × (states (at_task throws now create_id seed m).sessions m.next_key ≡ some running)
  unfolding start
  begun_running seed m =
      transition_taken throws quiet now m.next_key idle running "session-started" absent _
        (created_idle seed m).1 refl
