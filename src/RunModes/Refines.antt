-- ===== src/RunModes/Refines.antt =====
-- The session machine of packages/core/src/run-modes/session-machine.ts refines the table of states.
use generic_ai.Base.{
  ℕ, suc, ◌≡◌, refl, sym, ap, ◌∙◌, true, String, Option, none, some, List, [], ◌∷◌, arith,
  option_cases,
}
use generic_ai.Base.Exec.{Result, ok, err}
use generic_ai.RunModes.Machine.{
  RunSessionState, running, succeeded, failed, cancelled, Detail, RunEvent, RunSession, Seed,
  Machine, RunError, find, change, with_observer, without_observer, with_child, refusal, announce,
  transition, start, succeed, fail, cancel, emit, observe, stop_observing, built,
  create_root_session, create_child, build_session, adopt, create_machine,
}
use generic_ai.RunModes.States.{
  states, IsQuiet, states-change, states-change_state, find-none, find-some,
}
use generic_ai.RunModes.Plan.{
  Op, creates_root, creates_child, starts, succeeds, fails, cancels, emits, observes, unobserves,
  Table, move, Plan, one_more, plan, plan_all, Agrees, is_none, refusal-allowed, move-none,
  move-refused, move-allowed, no_plan, is_ended, plan_all-keeps, plan_all-IsBelow,
}

module _ {T X : Type 0} (throws : ℕ → RunEvent T X → Option X) (now : ℕ → ℕ) where
  announce-sessions :
      (n : ℕ) (kind : String) (s : RunSession) (d : Detail T X) (m : Machine T X)
      → ((announce throws now n kind s d m).1.sessions ≡ m.sessions)
        × ((announce throws now n kind s d m).1.next_key ≡ m.next_key)
  unfolding announce
  announce-sessions n kind s d m = (refl, refl)

  pub transition-states :
      (n : ℕ) (next : RunSessionState) (kind : String) (d : Detail T X) (m : Machine T X) (k : ℕ)
      → (states (transition throws now n next kind d m).1.sessions k
          ≡ move n next (states m.sessions) k)
        × ((transition throws now n next kind d m).1.next_key ≡ m.next_key)
  unfolding transition
  transition-states n next kind d m k =
      option_cases Moved (find n m.sessions) _ _
        (λ at. (sym (move-none n next f k (find-none n m.sessions at)), refl))
        (λ s at.
          option_cases Moved (refusal s.id s.state next) _ _
            (λ free. (
              states-change_state n k next m.sessions
                  ∙ sym (
                      move-allowed n next f k s.state (find-some n m.sessions s at)
                        (sym (refusal-allowed X s.id s.state next) ∙ ap is_none free)),
              refl,
            ))
            (λ e refused. (
              sym (
                  move-refused n next f k s.state (find-some n m.sessions s at)
                    (sym (refusal-allowed X s.id s.state next) ∙ ap is_none refused)),
              refl,
            )))
    where
      f : Table
      f = states m.sessions

      Moved : Result (RunError X) (Unit {0}) × Machine T X → Type 0
      Moved r =
          (states r.1.sessions k ≡ move n next (states m.sessions) k) × (r.1.next_key ≡ m.next_key)

  move-cong :
      (n : ℕ) (next : RunSessionState) (f g : Table) (k : ℕ)
      → f n ≡ g n
      → f k ≡ g k
      → move n next f k ≡ move n next g k
  move-cong n next f g k e h = ground arith

  transition-Agrees :
      (n : ℕ) (next : RunSessionState) (kind : String) (d : Detail T X) (m : Machine T X) (p : Plan)
      → Agrees m p
      → Agrees (transition throws now n next kind d m).1 (record p { table = move n next p.table })
  transition-Agrees n next kind d m p a = record {
    counted = (transition-states n next kind d m 0).1 ∙ a.counted;
    looked_up = λ k.
        (transition-states n next kind d m k).0
        ∙ move-cong n next (states m.sessions) p.table k (a.looked_up n) (a.looked_up k);
  }

module _ {T X : Type 0} (throws : ℕ → RunEvent T X → Option X) (now : ℕ → ℕ)
    (create_id : ℕ → String) where
  -- Whatever follows the building of a session leaves its states alone.
  build-Agrees :
      (parent : Option RunSession) (seed : Seed) (m : Machine T X) (p : Plan)
      → Agrees m p
      → Agrees (build_session throws now create_id parent seed m).1 (one_more p)
  unfolding build_session announce states
  build-Agrees parent seed m p a = record {
    counted = ap suc a.counted;
    looked_up = λ k. ground (arith, a.looked_up k, a.counted);
  }

  adopt-Agrees :
      (parent child : RunSession) (r : Result (RunError X) (Unit {0}) × Machine T X) (p : Plan)
      → Agrees r.1 p
      → Agrees (adopt throws now create_id parent child r).1 p
  unfolding announce
  adopt-Agrees parent child (err e, m) p a = a
  adopt-Agrees parent child (ok done, m) p a = record {
    counted = a.counted;
    looked_up = λ k.
        states-change parent.key k (with_child child.key) m.sessions
          (record { same_key = λ s. refl; same_state = λ s. refl })
        ∙ a.looked_up k;
  }

  child-Agrees :
      (n : ℕ) (seed : Seed) (m : Machine T X) (p : Plan)
      → Agrees m p
      → Agrees
          (create_child throws now create_id n seed m).1
          (elim (p.table n) [ none ↦ p | some s ↦ one_more p ])
  unfolding create_child
  child-Agrees n seed m p a =
      option_cases
        (λ (r : Result (RunError X) (Unit {0}) × Machine T X).
          Agrees r.1 (elim (p.table n) [ none ↦ p | some s ↦ one_more p ]))
        (find n m.sessions) _ _ (λ at. rw (sym (a.looked_up n) ∙ find-none n m.sessions at) a)
        (λ s at. rw (sym (a.looked_up n) ∙ find-some n m.sessions s at) (
          adopt-Agrees s (built throws now create_id (some s) seed m) _ (one_more p)
            (build-Agrees (some s) seed m p a)))

  quiet-Agrees :
      (n : ℕ) (f : RunSession → RunSession) (m : Machine T X) (p : Plan)
      → Agrees m p
      → IsQuiet f
      → Agrees (record m { sessions = change n f m.sessions }) p
  quiet-Agrees n f m p a q = record {
    counted = a.counted;
    looked_up = λ k. states-change n k f m.sessions q ∙ a.looked_up k;
  }

  unfoldable pub apply : Op T X → Machine T X → Machine T X
  unfolding create_root_session create_child start succeed fail cancel emit observe stop_observing
  apply (creates_root seed) m = (create_root_session throws now create_id seed m).1
  apply (creates_child n seed) m = (create_child throws now create_id n seed m).1
  apply (starts n) m = (start throws now n m).1
  apply (succeeds n d) m = (succeed throws now n d m).1
  apply (fails n d) m = (fail throws now n d m).1
  apply (cancels n why) m = (cancel throws now n why m).1
  apply (emits n kind d) m = (emit throws now n kind d m).1
  apply (observes n o) m = observe throws now n o m
  apply (unobserves n o) m = stop_observing throws now n o m

  unfoldable pub apply_all : List (Op T X) → Machine T X → Machine T X
  unfolding apply
  apply_all [] m = m
  apply_all (op ∷ ops) m = apply_all ops (apply op m)

  apply-Agrees :
      (op : Op T X) (m : Machine T X) (p : Plan) → Agrees m p → Agrees (apply op m) (plan op p)
  unfolding apply create_root_session start succeed fail cancel emit observe stop_observing
  apply-Agrees (creates_root seed) m p a = build-Agrees none seed m p a
  apply-Agrees (creates_child n seed) m p a = child-Agrees n seed m p a
  apply-Agrees (starts n) m p a = transition-Agrees throws now n running _ _ m p a
  apply-Agrees (succeeds n d) m p a = transition-Agrees throws now n succeeded _ d m p a
  apply-Agrees (fails n d) m p a = transition-Agrees throws now n failed _ d m p a
  apply-Agrees (cancels n why) m p a = transition-Agrees throws now n cancelled _ _ m p a
  apply-Agrees (emits n kind d) m p a =
      option_cases (λ (r : Result (RunError X) (Unit {0}) × Machine T X). Agrees r.1 p)
        (find n m.sessions) _ _ (λ at. a)
        (λ s at. unfold announce in record { counted = a.counted; looked_up = a.looked_up })
  apply-Agrees (observes n o) m p a =
      quiet-Agrees n (with_observer o) m p a
        (record { same_key = λ s. refl; same_state = λ s. refl })
  apply-Agrees (unobserves n o) m p a =
      quiet-Agrees n (without_observer o) m p a
        (record { same_key = λ s. refl; same_state = λ s. refl })

  apply_all-Agrees :
      (ops : List (Op T X)) (m : Machine T X) (p : Plan)
      → Agrees m p
      → Agrees (apply_all ops m) (plan_all ops p)
  unfolding apply_all
  apply_all-Agrees [] m p a = a
  apply_all-Agrees (op ∷ ops) m p a =
      apply_all-Agrees ops (apply op m) (plan op p) (apply-Agrees op m p a)

  created : Agrees {T = T} {X = X} create_machine no_plan
  unfolding states
  created = record { counted = refl; looked_up = λ k. refl }

  -- Whatever is called in whichever order, and whatever the observers throw: the machine has as many
  -- sessions as the plan, and each is in the state that the plan gives to it. In the plan a session
  -- starts idle and takes a state if it may follow; events and observers play no part.
  pub apply_all_refines :
      (ops : List (Op T X)) → Agrees (apply_all ops create_machine) (plan_all ops no_plan)
  apply_all_refines ops = apply_all-Agrees ops create_machine no_plan created

  -- A session that has succeeded, failed or been cancelled stays so, whatever is called later.
  pub ended_stays :
      (ops more : List (Op T X)) (k : ℕ) (st : RunSessionState)
      → states (apply_all ops create_machine).sessions k ≡ some st
      → is_ended st ≡ true
      → states (apply_all more (apply_all ops create_machine)).sessions k ≡ some st
  ended_stays ops more k st e ended =
      let before = apply_all_refines ops in
      let after =
        apply_all-Agrees more (apply_all ops create_machine) (plan_all ops no_plan) before in
      let here = sym (before.looked_up k) ∙ e in
      after.looked_up k
      ∙ plan_all-keeps more (plan_all ops no_plan) k st
          (plan_all-IsBelow ops no_plan (λ j s none. cc)) here ended
