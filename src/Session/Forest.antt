-- ===== src/Session/Forest.antt =====
-- What the session forest satisfies, and what a cascade of cancellations changes of it.
use generic_ai.Base.{
  ℕ, ◌<◌, String, ◌≡◌, refl, sym, ◌∙◌, ap, Bool, true, false, Option, none, some, List, [], length,
  arith, ◌⊎◌, inl, inr, contains, is_some,
}
use generic_ai.Base.Dict.{Dict, lookup, has}
use generic_ai.Session.Types.{SessionRecord, cancelled}
use generic_ai.Session.{is_live}

module _ {V : Type 0} where
  abbrev pub live_of : Option (SessionRecord V) → Bool
  live_of none = false
  live_of (some r) = is_live r

  abbrev pub children_of : Option (SessionRecord V) → List String
  children_of none = []
  children_of (some r) = r.child_session_ids

  -- Is there an active session with this id?
  abbrev pub active_at : Dict (SessionRecord V) → String → Bool
  active_at d p = live_of (lookup p d)

  abbrev pub children_at : Dict (SessionRecord V) → String → List String
  children_at d p = children_of (lookup p d)

  -- Every child is a session, and stands below its parent in a bounded rank: there is no cycle.
  pub record IsForest (rank : String → ℕ) (d : Dict (SessionRecord V)) : Type 0 where
    pub below : (p c : String) → contains (children_at d p) c ≡ true → rank p < rank c
    pub there : (p c : String) → contains (children_at d p) c ≡ true → has c d ≡ true
    pub bounded : (p : String) → has p d ≡ true → rank p < length d

  -- If `p` is not active, none of its children is.
  abbrev pub IsClosed : Dict (SessionRecord V) → String → Type 0
  IsClosed d p =
      active_at d p ≡ false
      → (c : String) → contains (children_at d p) c ≡ true
      → active_at d c ≡ false

  -- A record that a cascade has cancelled.
  pub record WasCancelled (reason : String) (old : Option (SessionRecord V))
      (new : Option (SessionRecord V)) : Type 0 where
    pub record_before : SessionRecord V
    pub timestamp : ℕ
    pub before : old ≡ some record_before
    pub was_active : is_live record_before ≡ true
    pub after :
        new
        ≡ some (record record_before {
          status = cancelled;
          updated_at = timestamp;
          ended_at = some timestamp;
          cancellation_reason = some reason;
          error = none;
        })

  -- From `d` to `e` some active sessions were cancelled for `reason`, and nothing else has changed.
  pub record Cascades (reason : String) (d e : Dict (SessionRecord V)) : Type 0 where
    pub changes :
        (p : String) → (lookup p e ≡ lookup p d) ⊎ WasCancelled reason (lookup p d) (lookup p e)
    pub same_length : length e ≡ length d
    pub closed : (p : String) → IsClosed d p → IsClosed e p

  pub Cascades-refl : (reason : String) (d : Dict (SessionRecord V)) → Cascades reason d d
  Cascades-refl reason d = record { changes = λ p. inl refl; same_length = refl; closed = λ p h. h }

  pub WasCancelled-live :
      (reason : String) (o n : Option (SessionRecord V))
      → WasCancelled reason o n
      → (live_of o ≡ true) × (live_of n ≡ false)
  WasCancelled-live reason o n w = (ap live_of w.before ∙ w.was_active, ap live_of w.after)

  pub WasCancelled-children :
      (reason : String) (o n : Option (SessionRecord V))
      → WasCancelled reason o n
      → children_of n ≡ children_of o
  WasCancelled-children reason o n w = ap children_of w.after ∙ sym (ap children_of w.before)

  pub Cascades-children :
      (reason : String) (d e : Dict (SessionRecord V))
      → Cascades reason d e
      → (p : String) → children_at e p ≡ children_at d p
  Cascades-children reason d e k p = elim (k.changes p) [
    | inl same ↦ ap children_of same
    | inr w ↦ WasCancelled-children reason _ _ w
  ]

  pub Cascades-has :
      (reason : String) (d e : Dict (SessionRecord V))
      → Cascades reason d e
      → (p : String) → has p e ≡ has p d
  Cascades-has reason d e k p = elim (k.changes p) [
    | inl same ↦ ap is_some same
    | inr w ↦ ap is_some w.after ∙ sym (ap is_some w.before)
  ]

  -- A session that is active after a cascade was active before.
  pub Cascades-live :
      (reason : String) (d e : Dict (SessionRecord V))
      → Cascades reason d e
      → (p : String) → active_at d p ≡ false
      → active_at e p ≡ false
  Cascades-live reason d e k p h = elim (k.changes p) [
    | inl same ↦ ap live_of same ∙ h
    | inr w ↦ (WasCancelled-live reason _ _ w).1
  ]

  pub changes_trans :
      (reason : String) (a b c : Option (SessionRecord V))
      → (b ≡ a) ⊎ WasCancelled reason a b
      → (c ≡ b) ⊎ WasCancelled reason b c
      → (c ≡ a) ⊎ WasCancelled reason a c
  changes_trans reason a b c (inl p) (inl q) = inl (q ∙ p)
  changes_trans reason a b c (inl p) (inr w) = inr (rw p at w)
  changes_trans reason a b c (inr w) (inl q) = inr (rw (← q) at w)
  changes_trans reason a b c (inr v) (inr w) =
      cc ((WasCancelled-live reason a b v).1, (WasCancelled-live reason b c w).0)

  pub Cascades-trans :
      (reason : String) (d e f : Dict (SessionRecord V))
      → Cascades reason d e
      → Cascades reason e f
      → Cascades reason d f
  Cascades-trans reason d e f k l = record {
    changes = λ p. changes_trans reason _ _ _ (k.changes p) (l.changes p);
    same_length = l.same_length ∙ k.same_length;
    closed = λ p h. l.closed p (k.closed p h);
  }

  pub Cascades-IsForest :
      (reason : String) (rank : String → ℕ) (d e : Dict (SessionRecord V))
      → Cascades reason d e
      → IsForest rank d
      → IsForest rank e
  Cascades-IsForest reason rank d e k h = record {
    below =
        λ p c m. h.below p c (ap (λ t. contains t c) (sym (Cascades-children reason d e k p)) ∙ m);
    there = λ p c m.
        Cascades-has reason d e k c
        ∙ h.there p c (ap (λ t. contains t c) (sym (Cascades-children reason d e k p)) ∙ m);
    bounded =
        λ p m. omega (arith, h.bounded p (sym (Cascades-has reason d e k p) ∙ m), k.same_length);
  }
