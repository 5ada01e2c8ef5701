-- ===== src/Session/Frame.antt =====
-- `cancelActiveDescendants` and `terminalizeCancelled` of session/orchestrator.ts reach only what is
-- below: for any set of ids that holds the children of its members, a cascade that starts inside of it
-- changes nothing outside, however it ends.
use generic_ai.Base.{
  ℕ, zero, suc, String, ◌≡◌, refl, sym, ◌∙◌, ap, true, false, some, List, [], ◌∷◌, arith, eq_iff,
  eq_refl, ◌==◌, ◌⊎◌, inl, inr, contains, Bool-cases, Option-cases, subst, if_cases, if◌then◌else◌,
}
use generic_ai.Base.Dict.{Dict, lookup, set, lookup-set}
use generic_ai.Base.Exec.{Result, ok, err, continue}
use generic_ai.Session.Types.{SessionRecord, SessionError}
use generic_ai.Session.{
  Orchestrator, Action, is_live, as_cancelled, cancel_each, terminalize_cancelled,
  cancel_active_descendants, get_required_record,
}
use generic_ai.Session.Forest.{children_of, children_at}

module _ {V : Type 0} (now : ℕ → ℕ) (reason : String) (d : Dict (SessionRecord V))
    (In : String → Type 0)
    (down : (p c : String) → In p → contains (children_at d p) c ≡ true → In c) where
  -- The sessions have the children that they have in `d`.
  abbrev pub SameChildren : Orchestrator V → Type 0
  SameChildren s = (p : String) → children_at s.sessions p ≡ children_at d p

  -- From `s` to `t` nothing has changed outside.
  pub record Inside (s t : Orchestrator V) : Type 0 where
    pub children : SameChildren t
    pub outside : (p : String) → (lookup p t.sessions ≡ lookup p s.sessions) ⊎ In p

  Inside-refl : (s : Orchestrator V) → SameChildren s → Inside s s
  Inside-refl s h = record { children = h; outside = λ p. inl refl }

  Inside-trans : (s t u : Orchestrator V) → Inside s t → Inside t u → Inside s u
  Inside-trans s t u k l = record {
    children = l.children;
    outside = λ p. elim (k.outside p) [
      | inr i ↦ inr i
      | inl same ↦ elim (l.outside p) [ inl also ↦ inl (also ∙ same) | inr i ↦ inr i ]
    ];
  }

  abbrev IsInside : (SessionRecord V → Action V (Unit {0})) → String → Type 0
  IsInside act c =
      (r : SessionRecord V) (s : Orchestrator V)
      → SameChildren s
      → lookup c s.sessions ≡ some r
      → Inside s (act r s).1

  then-Inside :
      (s : Orchestrator V) (next : Action V (Unit {0}))
      (x : Result SessionError (Unit {0}) × Orchestrator V)
      → Inside s x.1
      → ((t : Orchestrator V) → SameChildren t → Inside t (next t).1)
      → Inside s (continue x.0 (λ _. next) x.1).1
  then-Inside s next (ok done, t) k rest = Inside-trans s t _ k (rest t k.children)
  then-Inside s next (err e, t) k rest = k

  if-Inside :
      (s : Orchestrator V) (r : SessionRecord V) (act : Action V (Unit {0}))
      (next : Action V (Unit {0}))
      → SameChildren s
      → Inside s (act s).1
      → ((t : Orchestrator V) → SameChildren t → Inside t (next t).1)
      → Inside s
          (let x = (if is_live r then act else (λ u. (ok tt, u))) s in
            continue x.0 (λ _. next) x.1).1
  if-Inside s r act next h k rest =
      if_cases
        (λ (a : Action V (Unit {0})). Inside s (let x = a s in continue x.0 (λ _. next) x.1).1)
        (is_live r) (λ live. then-Inside s next (act s) k rest) (λ idle. rest s h)

  cancel_each-Inside :
      (terminalize : String → SessionRecord V → Action V (Unit {0}))
      → ((c : String) → In c → IsInside (terminalize c) c)
      → (cs : List String) (s : Orchestrator V) → SameChildren s
      → ((c : String) → contains cs c ≡ true → In c)
      → Inside s (cancel_each now terminalize cs s).1
  unfolding cancel_each
  cancel_each-Inside terminalize one [] s h in_all = Inside-refl s h
  cancel_each-Inside terminalize one (c ∷ cs) s h in_all =
      elim (Option-cases (lookup c s.sessions)) [
        | inl missing ↦ rw (get_required_record, missing) (Inside-refl s h)
        | inr (r, found) ↦
            rw (get_required_record, found)
              (if-Inside s r (terminalize c r) (cancel_each now terminalize cs) h
                (one c (in_all c (ground (arith, eq_refl c))) r s h found)
                (λ t k.
                  cancel_each-Inside terminalize one cs t k (λ b m. in_all b (ground (arith, m)))))
      ]

  -- The write of a cancelled record.
  write-Inside :
      (c : String) (r q : SessionRecord V) (s t : Orchestrator V)
      → In c
      → SameChildren s
      → lookup c s.sessions ≡ some r
      → q.child_session_ids ≡ r.child_session_ids
      → t.sessions ≡ set c q s.sessions
      → Inside s t
  write-Inside c r q s t i h found same saved =
      let written : (p : String)
          → lookup p t.sessions ≡ (if c == p then some q else lookup p s.sessions) =
        λ p. ap (lookup p) saved ∙ lookup-set c p q s.sessions in
      let apart : (p : String) → c == p ≡ false → lookup p t.sessions ≡ lookup p s.sessions =
        λ p e. written p ∙ ap (λ b. if b then some q else lookup p s.sessions) e in
      let at : (p : String) → c == p ≡ true → lookup p t.sessions ≡ some q =
        λ p e. written p ∙ ap (λ b. if b then some q else lookup p s.sessions) e in
      record {
        children = λ p. elim (Bool-cases (c == p)) [
          | inl e ↦
              ap children_of (at p e)
              ∙ same
              ∙ sym (
                  ap children_of
                    (subst (λ k. lookup k s.sessions ≡ some r) ((eq_iff c p).0 e) found))
              ∙ h p
          | inr e ↦ ap children_of (apart p e) ∙ h p
        ];
        outside = λ p. elim (Bool-cases (c == p)) [
          | inl e ↦ inr (subst In ((eq_iff c p).0 e) i)
          | inr e ↦ inl (apart p e)
        ];
      }

  terminalize-Inside :
      (fuel : ℕ) (c : String) → In c → IsInside (terminalize_cancelled now fuel reason c) c
  unfolding terminalize_cancelled
  terminalize-Inside zero c i r s h found = Inside-refl s h
  terminalize-Inside (suc fuel) c i r s h found =
      let q = as_cancelled r (now s.now_calls) reason in
      let t : Orchestrator V = record s {
        sessions = set c q s.sessions;
        now_calls = suc s.now_calls;
      } in
      let k = write-Inside c r q s t i h found refl refl in
      Inside-trans s t _ k (
        cancel_each-Inside (terminalize_cancelled now fuel reason) (terminalize-Inside fuel)
          r.child_session_ids t k.children
          (λ b m. down c b i (ap (λ l. contains l b) (sym (h c) ∙ ap children_of found) ∙ m)))

  pub cascade-Inside :
      (q : SessionRecord V) (s : Orchestrator V)
      → SameChildren s
      → ((c : String) → contains q.child_session_ids c ≡ true → In c)
      → Inside s (cancel_active_descendants now q reason s).1
  unfolding cancel_active_descendants
  cascade-Inside q s h in_all =
      cancel_each-Inside _ (terminalize-Inside _) q.child_session_ids s h in_all
