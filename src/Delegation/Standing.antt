-- ===== src/Delegation/Standing.antt =====
-- What each step does to the delegations of `delegateMany`, packages/core/src/session/delegation.ts.
use generic_ai.Base.{
  ℕ, zero, suc, String, ◌≡◌, ◌⊎◌, inl, inr, refl, subst, Bool, false, not, ◌&&◌, none, some, Option,
  List, [], ◌∷◌, arith, eqb, ◌||◌, or_else,
}
use mathlib.Core.Option.{some-injective}
use generic_ai.Base.Exec.{Result}
use generic_ai.Session.Types.{SessionError}
use generic_ai.Session.{Orchestrator}
use generic_ai.Session.Invariant.{IsValid}
use generic_ai.Delegation.{Request, Thrown, Coordinator}
use generic_ai.Delegation.Keeping.{Keeps, Keeps-refl, call-Keeps}
use generic_ai.Delegation.Many.{
  Delegation, Many, Beginning, Step, calls, settles, first_rejected, delegate_many, settle_one,
  settle_at, step, steps,
}
use generic_ai.Delegation.Fitting.{
  Refusal, is_refused, is_running, is_returned, AllFit, none_left, one_fits, is_open, Fits-Keeps,
  AllFit-Keeps, settle_one-GoesOn,
}
use generic_ai.Delegation.Begun.{begin_all-AllFit}

or_else-none : {A : Type 0} (o p : Option A) → or_else o p ≡ none → p ≡ none
or_else-none none p e = e
or_else-none (some a) p e = cc

or_else-some :
    {A : Type 0} (o p : Option A) (a : A) → or_else o p ≡ some a → (o ≡ some a) ⊎ (p ≡ some a)
or_else-some none p a e = inr e
or_else-some (some b) p a e = inl e

-- The step settles the executor with this place.
abbrev pub closes : {V : Type 0} → ℕ → List (Step V) → Bool
closes j [] = false
closes j (calls k ∷ ks) = closes j ks
closes j (settles i outcome ∷ ks) = eqb i j || closes j ks

-- The delegation with this place waits for its executor.
abbrev pub open_at : {V : Type 0} → ℕ → List (Delegation V) → Bool
open_at j [] = false
open_at zero (d ∷ ds) = is_open d
open_at (suc j) (d ∷ ds) = open_at j ds

module _ {V : Type 0} (parent : String) where
  -- The delegations fit, and the first error is that of one that was refused.
  pub record Stands (b : Orchestrator V) (requests : List (Request V)) (m : Many V) : Type 0 where
    pub valid : IsValid m.coordinator.orchestrator.sessions
    pub fit : AllFit parent m.coordinator.orchestrator b requests m.delegations
    pub refused : (e : SessionError) → m.failure ≡ some e → Refusal parent e
    pub unrefused : m.failure ≡ none → first_rejected m.delegations ≡ none

  AllFit-refused :
      (s b : Orchestrator V) (requests : List (Request V)) (ds : List (Delegation V))
      → AllFit parent s b requests ds
      → (e : SessionError) → first_rejected ds ≡ some e
      → Refusal parent e
  AllFit-refused s b requests ds (none_left _) e found = cc
  AllFit-refused s b requests ds (one_fits _ b1 request d rest es grow (is_refused x why) fs) e
        found =
      subst (Refusal parent) (some-injective _ _ found) why
  AllFit-refused s b requests ds (one_fits _ b1 request d rest es grow (is_running id h) fs) e
        found =
      AllFit-refused s b1 rest es fs e found
  AllFit-refused s b requests ds
        (one_fits _ b1 request d rest es grow (is_returned r q same at idle h) fs) e found =
      AllFit-refused s b1 rest es fs e found

module _ {V : Type 0} (now : ℕ → ℕ) (id_factory : ℕ → String) (parent : String) where
  settle_at-AllFit :
      (outcome : Result Thrown V) (c : Coordinator V)
      → IsValid c.orchestrator.sessions
      → (b : Orchestrator V) (i : ℕ) (requests : List (Request V)) (ds : List (Delegation V))
      → AllFit parent c.orchestrator b requests ds
      → let x = settle_at now id_factory i outcome c ds in
        Keeps c.orchestrator x.1.orchestrator
        × AllFit parent x.1.orchestrator b requests x.0
        × ((j : ℕ) → open_at j x.0 ≡ (open_at j ds && not (eqb i j)))
  unfolding settle_at
  settle_at-AllFit outcome c v b i requests ds (none_left _) =
      (Keeps-refl c.orchestrator v, none_left b, λ j. refl)
  settle_at-AllFit outcome c v b zero requests ds (one_fits _ b1 request d rest es grow f fs) =
      let (on, closed) = settle_one-GoesOn parent request now id_factory b b1 outcome c v d f in
      let x = settle_one now id_factory outcome c d in
      (
        on.keeps,
        one_fits b b1 request x.0 rest es grow on.fits
            (AllFit-Keeps parent c.orchestrator x.1.orchestrator on.keeps b1 rest es fs),
        λ j. first_closes j x.0 d es closed,
      )
    where
      first_closes :
          (j : ℕ) (e d : Delegation V) (es : List (Delegation V))
          → is_open e ≡ false
          → open_at j (e ∷ es) ≡ (open_at j (d ∷ es) && not (eqb zero j))
      first_closes zero e d es closed = ground arith
      first_closes (suc j) e d es closed = ground arith
  settle_at-AllFit outcome c v b (suc i) requests ds (one_fits _ b1 request d rest es grow f fs) =
      let (k, fs', closed) = settle_at-AllFit outcome c v b1 i rest es fs in
      let x = settle_at now id_factory i outcome c es in
      (
        k,
        one_fits b b1 request d rest x.0 grow
            (Fits-Keeps parent b b1 request c.orchestrator x.1.orchestrator k d f) fs',
        λ j. other_closes j closed,
      )
    where
      other_closes :
          (j : ℕ)
          → ((j : ℕ)
              → open_at j (settle_at now id_factory i outcome c es).0
                ≡ (open_at j es && not (eqb i j)))
          → open_at j (d ∷ (settle_at now id_factory i outcome c es).0)
            ≡ (open_at j (d ∷ es) && not (eqb (suc i) j))
      other_closes zero closed = ground arith
      other_closes (suc j) closed = ground (arith, closed j)

  step-Stands :
      (b : Orchestrator V) (requests : List (Request V)) (k : Step V) (m : Many V)
      → Stands parent b requests m
      → Stands parent b requests (step now id_factory k m)
        × ((j : ℕ)
            → open_at j (step now id_factory k m).delegations
              ≡ (open_at j m.delegations && not (closes j (k ∷ []))))
  unfolding step
  step-Stands b requests (calls k) m st =
      let keeps = call-Keeps now id_factory m.coordinator.orchestrator st.valid k in
      (
        record {
          valid = keeps.valid;
          fit =
              AllFit-Keeps parent m.coordinator.orchestrator _ keeps b requests m.delegations
                st.fit;
          refused = st.refused;
          unrefused = st.unrefused;
        },
        λ j. ground arith,
      )
  step-Stands b requests (settles i outcome) m st =
      let (keeps, fit, closed) =
        settle_at-AllFit outcome m.coordinator st.valid b i requests m.delegations st.fit in
      let x = settle_at now id_factory i outcome m.coordinator m.delegations in
      (
        record {
          valid = keeps.valid;
          fit = fit;
          refused = λ e found. elim (or_else-some m.failure (first_rejected x.0) e found) [
            | inl before ↦ st.refused e before
            | inr new ↦ AllFit-refused parent x.1.orchestrator b requests x.0 fit e new
          ];
          unrefused = λ e. or_else-none m.failure (first_rejected x.0) e;
        },
        λ j. ground (arith, closed j),
      )

  pub steps-Stands :
      (b : Orchestrator V) (requests : List (Request V)) (ks : List (Step V)) (m : Many V)
      → Stands parent b requests m
      → Stands parent b requests (steps now id_factory ks m)
        × ((j : ℕ)
            → open_at j (steps now id_factory ks m).delegations
              ≡ (open_at j m.delegations && not (closes j ks)))
  unfolding steps
  steps-Stands b requests [] m st = (st, λ j. ground arith)
  steps-Stands b requests (k ∷ ks) m st =
      let (next, closed) = step-Stands b requests k m st in
      let (last, rest) = steps-Stands b requests ks (step now id_factory k m) next in
      (last, λ j. closes_both j k _ _ _ (closed j) (rest j))
    where
      closes_both :
          (j : ℕ) (k : Step V) (a b c : Bool)
          → b ≡ (a && not (closes j (k ∷ [])))
          → c ≡ (b && not (closes j ks))
          → c ≡ (a && not (closes j (k ∷ ks)))
      closes_both j (calls k) a b c e h = ground arith
      closes_both j (settles i outcome) a b c e h = ground arith

  pub begun-Stands :
      (begins : Beginning V) (requests : List (Request V)) (c : Coordinator V)
      → IsValid c.orchestrator.sessions
      → Stands parent c.orchestrator requests
          (delegate_many now id_factory parent requests begins c)
  unfolding delegate_many
  begun-Stands begins requests c v =
      let (w, keeps, fit) = begin_all-AllFit now id_factory parent begins requests c v in
      record {
        valid = w;
        fit = fit;
        refused = AllFit-refused parent _ c.orchestrator requests _ fit;
        unrefused = λ e. e;
      }
