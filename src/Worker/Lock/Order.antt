-- ===== src/Worker/Lock/Order.antt =====
-- The tasks of a room run one after the other, in the order of their calls (src/worker/lock.ts).
use open_dilim.Prelude.{
  ℕ, suc, ◌<◌, ◌≤◌, ◌≡◌, refl, sym, ◌∙◌, ◌≢◌, inl, inr, true, false, ◌&&◌, none, some, ◌==◌, ==_iff,
  Bool-cases, Option-cases, arith,
}
use open_dilim.Prelude.Text.{Text, text_eq, text_eq_iff}
use open_dilim.Worker.Lock.{
  ConversationLock, set_at, no_tasks, run, is_ready, is_running, is_tail, start, settle, forget,
}

-- The last task of a room that was called before `n`.
pub record IsLast (key_of : ℕ → Text) (n : ℕ) (key : Text) (p : ℕ) : Type 0 where
  pub before : p < n
  pub own : key_of p ≡ key
  pub last : (i : ℕ) → i < n → key_of i ≡ key → i ≤ p

-- All tasks of a room that were called before `n` have settled.
abbrev AllSettled : ConversationLock → ℕ → Text → Type 0
AllSettled l n key = (i : ℕ) → i < n → l.key_of i ≡ key → l.settled i ≡ true

pub record IsOrdered (l : ConversationLock) : Type 0 where
  pub unborn : (i : ℕ) → l.count ≤ i → l.started i ≡ false
  pub once_started : (i : ℕ) → l.settled i ≡ true → l.started i ≡ true
  pub tail : (key : Text) (p : ℕ) → l.chains key ≡ some p → IsLast l.key_of l.count key p
  pub idle : (key : Text) → l.chains key ≡ none → AllSettled l l.count key
  pub first : (j : ℕ) → j < l.count → l.prev_of j ≡ none → AllSettled l j (l.key_of j)
  pub after : (j p : ℕ) → j < l.count → l.prev_of j ≡ some p → IsLast l.key_of j (l.key_of j) p
  pub order : (j : ℕ) → l.started j ≡ true → AllSettled l j (l.key_of j)

pub no_tasks-IsOrdered : IsOrdered no_tasks
no_tasks-IsOrdered = record {
  unborn = λ i h. refl;
  once_started = λ i h. cc;
  tail = λ key p h. absurd cc;
  idle = λ key h i few. ground arith;
  first = λ j few. ground arith;
  after = λ j p few. ground arith;
  order = λ j h. cc;
}

pub ne : (a b : ℕ) → (a == b) ≡ false → a ≢ b
ne a b h = ground arith

module _ (l : ConversationLock) (v : IsOrdered l) where
  -- If the last task of a room has settled, all have.
  last-AllSettled :
      (n p : ℕ) (key : Text) → IsLast l.key_of n key p → l.settled p ≡ true → AllSettled l n key
  last-AllSettled n p key t done i earlier same = elim (Bool-cases (i == p)) [
    | inl this ↦ rw ((==_iff i p).0 this) done
    | inr other ↦
        v.order p (v.once_started p done) i (omega (arith, t.last i earlier same, ne i p other))
          (same ∙ sym t.own)
  ]

  -- A task that is ready has nothing of its room before it that has not settled.
  ready-AllSettled : (j : ℕ) → is_ready j l ≡ true → AllSettled l j (l.key_of j)
  ready-AllSettled j h = elim (Option-cases (l.prev_of j)) [
    | inl e ↦ v.first j (ground arith) e
    | inr (p, e) ↦
        last-AllSettled j p (l.key_of j) (v.after j p (ground arith) e)
          (let h' = rw e at h in ground arith)
  ]

  pub start-IsOrdered : (j : ℕ) → is_ready j l ≡ true → IsOrdered (start j l)
  start-IsOrdered j h = record {
    unborn = λ i few. ground (arith, v.unborn i few);
    once_started = λ i s. ground (arith, v.once_started i s);
    tail = v.tail;
    idle = v.idle;
    first = v.first;
    after = v.after;
    order = λ k s. elim (Bool-cases (k == j)) [
      | inl this ↦ (λ i earlier same.
          let e = (==_iff k j).0 this in ready-AllSettled j h i (rw e at earlier) (rw e at same))
      | inr other ↦ v.order k (rw other at s)
    ];
  }

  pub settle-IsOrdered : (j : ℕ) → is_running j l ≡ true → IsOrdered (settle j l)
  settle-IsOrdered j h = record {
    unborn = v.unborn;
    once_started = λ i s. ground (arith, v.once_started i);
    tail = v.tail;
    idle = λ key e i few same. ground (arith, v.idle key e i few same);
    first = λ k few e i earlier same. ground (arith, v.first k few e i earlier same);
    after = v.after;
    order = λ k s i earlier same. ground (arith, v.order k s i earlier same);
  }

  -- The tail of a room is its last task: if it has settled, all have.
  pub forget-IsOrdered : (j : ℕ) → l.settled j ≡ true → IsOrdered (forget j l)
  forget-IsOrdered j h = record {
    unborn = v.unborn;
    once_started = v.once_started;
    tail = λ key p e. elim (Bool-cases (text_eq key (l.key_of j) && is_tail j (l.chains key))) [
      | inl gone ↦ (let e' = rw gone at e in absurd cc)
      | inr stays ↦ v.tail key p (rw stays at e)
    ];
    idle = λ key e. elim (Bool-cases (text_eq key (l.key_of j) && is_tail j (l.chains key))) [
      | inr stays ↦ v.idle key (rw stays at e)
      | inl gone ↦ elim (Option-cases (l.chains key)) [
        | inl nobody ↦ v.idle key nobody
        | inr (p, t) ↦
            let gone' = rw t at gone in
            last-AllSettled l.count p key (v.tail key p t) (rw ((==_iff p j).0 (ground arith)) h)
      ]
    ];
    first = v.first;
    after = v.after;
    order = v.order;
  }

  module _ (key : Text) where
    -- What the new task does not change.
    old : {A : Type 0} (a : A) (f : ℕ → A) (i : ℕ) → i < l.count → set_at l.count a f i ≡ f i
    old a f i few = ground arith

    here : {A : Type 0} (a : A) (f : ℕ → A) → set_at l.count a f l.count ≡ a
    here a f = ground arith

    is_own :
        (key' : Text) (i : ℕ)
        → text_eq key' key ≡ false
        → (i == l.count) ≡ true
        → set_at l.count key l.key_of i ≡ key'
        → ⊥
    is_own key' i other new same =
        let e : key ≡ key' = (rw new at same) in (let h = (text_eq_iff key' key).1 (sym e) in cc)

    other-last :
        (n p : ℕ) (key' : Text)
        → n ≤ l.count
        → IsLast l.key_of n key' p
        → IsLast (run key l).key_of n key' p
    other-last n p key' few t = record {
      before = t.before;
      own = old key l.key_of p (omega (arith, t.before)) ∙ t.own;
      last = λ i earlier same.
          t.last i earlier (sym (old key l.key_of i (omega (arith, earlier))) ∙ same);
    }

    old-AllSettled :
        (n : ℕ) (key' : Text) → n ≤ l.count → AllSettled l n key' → AllSettled (run key l) n key'
    old-AllSettled n key' few h i earlier same =
        h i earlier (sym (old key l.key_of i (omega (arith, earlier))) ∙ same)

    run-tail :
        (key' : Text) (p : ℕ)
        → (run key l).chains key' ≡ some p
        → IsLast (run key l).key_of (suc l.count) key' p
    run-tail key' p e = elim (Bool-cases (text_eq key' key)) [
      | inl own ↦
          let e' : some l.count ≡ some p = rw own at e in
          let at_end : l.count ≡ p = cc in
          let own' : key ≡ key' = sym ((text_eq_iff key' key).0 own) in
          rw (← at_end) (record {
            before = omega arith;
            own = here key l.key_of ∙ own';
            last = λ i earlier same. omega (arith, earlier);
          })
      | inr other ↦
          let t = v.tail key' p (rw other at e) in
          record {
            before = omega (arith, t.before);
            own = old key l.key_of p t.before ∙ t.own;
            last = λ i earlier same. elim (Bool-cases (i == l.count)) [
              | inl new ↦ absurd (is_own key' i other new same)
              | inr before ↦
                  let few : i < l.count = omega (arith, earlier, ne i l.count before) in
                  t.last i few (sym (old key l.key_of i few) ∙ same)
            ];
          }
    ]

    run-idle :
        (key' : Text) → (run key l).chains key' ≡ none → AllSettled (run key l) (suc l.count) key'
    run-idle key' e i earlier same = elim (Bool-cases (text_eq key' key)) [
      | inl own ↦ (let e' : some l.count ≡ none = rw own at e in absurd cc)
      | inr other ↦ elim (Bool-cases (i == l.count)) [
        | inl new ↦ absurd (is_own key' i other new same)
        | inr before ↦
            let few : i < l.count = omega (arith, earlier, ne i l.count before) in
            v.idle key' (rw other at e) i few (sym (old key l.key_of i few) ∙ same)
      ]
    ]

    run-first :
        (j : ℕ)
        → j < suc l.count
        → (run key l).prev_of j ≡ none
        → AllSettled (run key l) j ((run key l).key_of j)
    run-first j few e = elim (Bool-cases (j == l.count)) [
      | inl new ↦
          let at_end = (==_iff j l.count).0 new in
          rw (at_end, here key l.key_of)
            (old-AllSettled l.count key (omega arith)
              (v.idle key (sym (here (l.chains key) l.prev_of) ∙ rw at_end at e)))
      | inr before ↦
          let few' : j < l.count = omega (arith, few, ne j l.count before) in
          rw (old key l.key_of j few') (
            old-AllSettled j (l.key_of j) (omega (arith, few'))
              (v.first j few' (sym (old (l.chains key) l.prev_of j few') ∙ e)))
    ]

    run-after :
        (j p : ℕ)
        → j < suc l.count
        → (run key l).prev_of j ≡ some p
        → IsLast (run key l).key_of j ((run key l).key_of j) p
    run-after j p few e = elim (Bool-cases (j == l.count)) [
      | inl new ↦
          let at_end = (==_iff j l.count).0 new in
          rw (at_end, here key l.key_of)
            (other-last l.count p key (omega arith)
              (v.tail key p (sym (here (l.chains key) l.prev_of) ∙ rw at_end at e)))
      | inr before ↦
          let few' : j < l.count = omega (arith, few, ne j l.count before) in
          rw (old key l.key_of j few') (
            other-last j p (l.key_of j) (omega (arith, few'))
              (v.after j p few' (sym (old (l.chains key) l.prev_of j few') ∙ e)))
    ]

    run-order : (j : ℕ) → l.started j ≡ true → AllSettled (run key l) j ((run key l).key_of j)
    run-order j s =
        let few : j < l.count = ground (arith, v.unborn j) in
        rw (old key l.key_of j few)
          (old-AllSettled j (l.key_of j) (omega (arith, few)) (v.order j s))

  pub run-IsOrdered : (key : Text) → IsOrdered (run key l)
  run-IsOrdered key = record {
    unborn = λ i few. v.unborn i (omega (arith, few));
    once_started = v.once_started;
    tail = run-tail key;
    idle = run-idle key;
    first = run-first key;
    after = run-after key;
    order = run-order key;
  }
