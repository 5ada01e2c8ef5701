-- ===== src/RunModes/Plan.antt =====
-- The session machine of packages/core/src/run-modes/session-machine.ts as a table of states.
use generic_ai.Base.{
  ℕ, suc, ◌≡◌, refl, ◌<◌, inl, inr, Option-cases, Bool, true, false, String, Option, none, some,
  List, [], ◌∷◌, if◌then◌else◌, eqb, arith, option_cases,
}
use generic_ai.RunModes.Machine.{
  RunSessionState, idle, running, succeeded, failed, cancelled, Detail, Seed, Machine, refusal,
}
use generic_ai.RunModes.States.{states, put}

-- A call of the machine or of one of its sessions.
pub data Op (T X : Type 0) : Type 0 where
  creates_root : Seed → Op T X
  creates_child : ℕ → Seed → Op T X
  starts : ℕ → Op T X
  succeeds fails : ℕ → Detail T X → Op T X
  cancels : ℕ → Option String → Op T X
  emits : ℕ → String → Detail T X → Op T X
  observes unobserves : ℕ → ℕ → Op T X

-- The states that may follow one another.
abbrev pub allowed : RunSessionState → RunSessionState → Bool
allowed idle running = true
allowed idle cancelled = true
allowed running succeeded = true
allowed running failed = true
allowed running cancelled = true
allowed _ _ = false

abbrev pub Table : Type 0
Table = ℕ → Option RunSessionState

-- A session takes a state if it may.
abbrev pub move : ℕ → RunSessionState → Table → Table
move n next f = elim (f n) [ none ↦ f | some s ↦ if allowed s next then put n next f else f ]

abbrev pub add : ℕ → Table → Table
add n f k = if eqb n k then some idle else f k

-- The abstract machine: how many sessions there are, and their states.
pub record Plan : Type 0 where
  pub made : ℕ
  pub table : Table

abbrev pub one_more : Plan → Plan
one_more p = record { made = suc p.made; table = add p.made p.table }

-- What a call does to the plan. Observers, events and details play no part.
abbrev pub plan : {T X : Type 0} → Op T X → Plan → Plan
plan (creates_root seed) p = one_more p
plan (creates_child n seed) p = elim (p.table n) [ none ↦ p | some s ↦ one_more p ]
plan (starts n) p = record p { table = move n running p.table }
plan (succeeds n d) p = record p { table = move n succeeded p.table }
plan (fails n d) p = record p { table = move n failed p.table }
plan (cancels n why) p = record p { table = move n cancelled p.table }
plan (emits n kind d) p = p
plan (observes n o) p = p
plan (unobserves n o) p = p

abbrev pub plan_all : {T X : Type 0} → List (Op T X) → Plan → Plan
plan_all [] p = p
plan_all (op ∷ ops) p = plan_all ops (plan op p)

pub record Agrees {T X : Type 0} (m : Machine T X) (p : Plan) : Type 0 where
  pub counted : m.next_key ≡ p.made
  pub looked_up : (k : ℕ) → states m.sessions k ≡ p.table k

abbrev pub is_none : {A : Type 0} → Option A → Bool
is_none none = true
is_none (some a) = false

pub refusal-allowed :
    (X : Type 0) (id : String) (s next : RunSessionState)
    → is_none (refusal {X = X} id s next) ≡ allowed s next
refusal-allowed X id s idle = ground arith
refusal-allowed X id s running = ground arith
refusal-allowed X id s succeeded = ground arith
refusal-allowed X id s failed = ground arith
refusal-allowed X id s cancelled = ground arith

pub move-none :
    (n : ℕ) (next : RunSessionState) (f : Table) (k : ℕ) → f n ≡ none → move n next f k ≡ f k
move-none n next f k e = ground arith

pub move-refused :
    (n : ℕ) (next : RunSessionState) (f : Table) (k : ℕ) (s : RunSessionState)
    → f n ≡ some s
    → allowed s next ≡ false
    → move n next f k ≡ f k
move-refused n next f k s e h = ground arith

pub move-allowed :
    (n : ℕ) (next : RunSessionState) (f : Table) (k : ℕ) (s : RunSessionState)
    → f n ≡ some s
    → allowed s next ≡ true
    → move n next f k ≡ put n next f k
move-allowed n next f k s e h = ground arith

abbrev pub no_plan : Plan
no_plan = record { made = 0; table = λ k. none }

abbrev pub is_ended : RunSessionState → Bool
is_ended idle = false
is_ended running = false
is_ended succeeded = true
is_ended failed = true
is_ended cancelled = true

ended-stays : (st next : RunSessionState) → is_ended st ≡ true → allowed st next ≡ false
ended-stays idle next e = cc
ended-stays running next e = cc
ended-stays succeeded next e = refl
ended-stays failed next e = refl
ended-stays cancelled next e = refl

-- Every session of the plan has a number that was given out.
abbrev pub IsBelow : Plan → Type 0
IsBelow p = (k : ℕ) (st : RunSessionState) → p.table k ≡ some st → k < p.made

move-keeps :
    (n : ℕ) (next : RunSessionState) (f : Table) (k : ℕ) (st : RunSessionState)
    → f k ≡ some st
    → is_ended st ≡ true
    → move n next f k ≡ some st
move-keeps n next f k st e ended = ground (arith, ended-stays st next)

move_empty :
    (n : ℕ) (next : RunSessionState) (f : Table) (k : ℕ) → f k ≡ none → move n next f k ≡ none
move_empty n next f k e = ground arith

move-IsBelow :
    (n : ℕ) (next : RunSessionState) (p : Plan)
    → IsBelow p
    → IsBelow (record p { table = move n next p.table })
move-IsBelow n next p below k st e = elim (Option-cases (p.table k)) [
  | inl empty ↦ cc (move_empty n next p.table k empty)
  | inr (old, found) ↦ below k old found
]

one_more-IsBelow : (p : Plan) → IsBelow p → IsBelow (one_more p)
one_more-IsBelow p below k st e = ground (arith, below k st)

one_more-keeps :
    (p : Plan) (k : ℕ) (st : RunSessionState)
    → p.table k ≡ some st
    → k < p.made
    → (one_more p).table k ≡ some st
one_more-keeps p k st e lt = ground arith

module _ {T X : Type 0} where
  plan-IsBelow : (op : Op T X) (p : Plan) → IsBelow p → IsBelow (plan op p)
  plan-IsBelow (creates_root seed) p below = one_more-IsBelow p below
  plan-IsBelow (creates_child n seed) p below =
      option_cases IsBelow (p.table n) _ _ (λ e. below) (λ s e. one_more-IsBelow p below)
  plan-IsBelow (starts n) p below = move-IsBelow n running p below
  plan-IsBelow (succeeds n d) p below = move-IsBelow n succeeded p below
  plan-IsBelow (fails n d) p below = move-IsBelow n failed p below
  plan-IsBelow (cancels n why) p below = move-IsBelow n cancelled p below
  plan-IsBelow (emits n kind d) p below = below
  plan-IsBelow (observes n o) p below = below
  plan-IsBelow (unobserves n o) p below = below

  pub plan_all-IsBelow : (ops : List (Op T X)) (p : Plan) → IsBelow p → IsBelow (plan_all ops p)
  plan_all-IsBelow [] p below = below
  plan_all-IsBelow (op ∷ ops) p below = plan_all-IsBelow ops (plan op p) (plan-IsBelow op p below)

  plan-keeps :
      (op : Op T X) (p : Plan) (k : ℕ) (st : RunSessionState)
      → p.table k ≡ some st
      → k < p.made
      → is_ended st ≡ true
      → (plan op p).table k ≡ some st
  plan-keeps (creates_root seed) p k st e lt ended = one_more-keeps p k st e lt
  plan-keeps (creates_child n seed) p k st e lt ended =
      option_cases (λ (q : Plan). q.table k ≡ some st) (p.table n) _ _ (λ none. e)
        (λ s found. one_more-keeps p k st e lt)
  plan-keeps (starts n) p k st e lt ended = move-keeps n running p.table k st e ended
  plan-keeps (succeeds n d) p k st e lt ended = move-keeps n succeeded p.table k st e ended
  plan-keeps (fails n d) p k st e lt ended = move-keeps n failed p.table k st e ended
  plan-keeps (cancels n why) p k st e lt ended = move-keeps n cancelled p.table k st e ended
  plan-keeps (emits n kind d) p k st e lt ended = e
  plan-keeps (observes n o) p k st e lt ended = e
  plan-keeps (unobserves n o) p k st e lt ended = e

  pub plan_all-keeps :
      (ops : List (Op T X)) (p : Plan) (k : ℕ) (st : RunSessionState)
      → IsBelow p
      → p.table k ≡ some st
      → is_ended st ≡ true
      → (plan_all ops p).table k ≡ some st
  plan_all-keeps [] p k st below e ended = e
  plan_all-keeps (op ∷ ops) p k st below e ended =
      plan_all-keeps ops (plan op p) k st (plan-IsBelow op p below)
        (plan-keeps op p k st e (below k st e) ended) ended
