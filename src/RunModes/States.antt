-- ===== src/RunModes/States.antt =====
-- What the calls of packages/core/src/run-modes/session-machine.ts do to the states of the sessions.
use generic_ai.Base.{ℕ, ◌≡◌, refl, Option, none, some, List, [], ◌∷◌, if◌then◌else◌, eqb, arith}
use generic_ai.RunModes.Machine.{RunSessionState, RunSession, find, change, with_state}

-- The state of the session with a number.
unfoldable pub states : List RunSession → ℕ → Option RunSessionState
states [] n = none
states (s ∷ ss) n = if eqb s.key n then some s.state else states ss n

-- A function that keeps the number and the state of a session.
pub record IsQuiet (f : RunSession → RunSession) : Type 0 where
  pub same_key : (s : RunSession) → (f s).key ≡ s.key
  pub same_state : (s : RunSession) → (f s).state ≡ s.state

pub states-change :
    (n k : ℕ) (f : RunSession → RunSession) (ss : List RunSession)
    → IsQuiet f
    → states (change n f ss) k ≡ states ss k
unfolding states change
states-change n k f [] q = refl
states-change n k f (s ∷ ss) q =
    ground (arith, states-change n k f ss q, q.same_key s, q.same_state s)

-- The states with that of one session set, if there is this session.
abbrev pub put : ℕ → RunSessionState → (ℕ → Option RunSessionState) → ℕ → Option RunSessionState
put n st f k = if eqb n k then elim (f k) [ none ↦ none | some old ↦ some st ] else f k

pub states-change_state :
    (n k : ℕ) (st : RunSessionState) (ss : List RunSession)
    → states (change n (with_state st) ss) k ≡ put n st (states ss) k
unfolding states change
states-change_state n k st [] = ground arith
states-change_state n k st (s ∷ ss) = ground (arith, states-change_state n k st ss)

pub find-none : (n : ℕ) (ss : List RunSession) → find n ss ≡ none → states ss n ≡ none
unfolding states find
find-none n [] e = refl
find-none n (s ∷ ss) e = ground (arith, find-none n ss)

pub find-some :
    (n : ℕ) (ss : List RunSession) (s : RunSession)
    → find n ss ≡ some s
    → states ss n ≡ some s.state
unfolding states find
find-some n [] s e = cc
find-some n (t ∷ ss) s e = ground (arith, find-some n ss s)
