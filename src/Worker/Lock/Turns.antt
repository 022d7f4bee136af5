-- ===== src/Worker/Lock/Turns.antt =====
-- What the lock of a room promises in every state that can be reached (src/worker/lock.ts).
use open_dilim.Prelude.{
  ℕ, zero, suc, ◌<◌, ◌≤◌, ◌≡◌, refl, ◌∙◌, inl, inr, true, false, ◌||◌, lt→ltb, Bool-cases,
  Option-cases, arith,
}
use open_dilim.Worker.Lock.{
  ConversationLock, is_settled, is_ready, is_running, Step, runs, starts, settles, forgets, Reach,
  fresh, later,
}
use open_dilim.Worker.Lock.Order.{
  IsOrdered, no_tasks-IsOrdered, start-IsOrdered, settle-IsOrdered, forget-IsOrdered, run-IsOrdered,
}

Step-IsOrdered : {l m : ConversationLock} → Step l m → IsOrdered l → IsOrdered m
Step-IsOrdered {l = l} (runs key) v = run-IsOrdered l v key
Step-IsOrdered {l = l} (starts i h) v = start-IsOrdered l v i h
Step-IsOrdered {l = l} (settles i h) v = settle-IsOrdered l v i h
Step-IsOrdered {l = l} (forgets i h) v = forget-IsOrdered l v i h

Reach-IsOrdered : {l : ConversationLock} → Reach l → IsOrdered l
Reach-IsOrdered fresh = no_tasks-IsOrdered
Reach-IsOrdered (later r s) = Step-IsOrdered s (Reach-IsOrdered r)

-- In every state that can be reached, a task has started only if each task of its room that was called
-- before it has settled, and so does not run: one task of a room runs at a time, in the order of the
-- calls.
pub Reach-one_running :
    (l : ConversationLock)
    → Reach l
    → (i j : ℕ) → i < j
    → l.key_of i ≡ l.key_of j
    → l.started j ≡ true
    → (l.settled i ≡ true) × (is_running i l ≡ false)
Reach-one_running l r i j earlier same s =
    let done : l.settled i ≡ true = (Reach-IsOrdered r).order j s i earlier same in
    (done, ground arith)

-- No room is stuck: while a task has not settled, one of its room, called no later, can start or runs.
pub Reach-progress :
    (l : ConversationLock)
    → Reach l
    → (i : ℕ) → i < l.count
    → l.settled i ≡ false
    → (k : ℕ) × (k ≤ i) × (l.key_of k ≡ l.key_of i) × (is_ready k l || is_running k l ≡ true)
Reach-progress l r i few waits = go (suc i) i (omega arith) few waits
  where
    v : IsOrdered l
    v = Reach-IsOrdered r

    go :
        (n i : ℕ)
        → i < n
        → i < l.count
        → l.settled i ≡ false
        → (k : ℕ) × (k ≤ i) × (l.key_of k ≡ l.key_of i) × (is_ready k l || is_running k l ≡ true)
    go zero i h few waits = ground arith
    go (suc n) i h few waits = elim (Bool-cases (is_settled (l.prev_of i) l)) [
      | inl free ↦ (i, omega arith, refl, ground (arith, lt→ltb i l.count few))
      | inr held ↦ elim (Option-cases (l.prev_of i)) [
        | inl e ↦ (let h' = rw e at held in absurd cc)
        | inr (p, e) ↦
            let t = v.after i p few e in
            let (k, le, same, goes) =
              go n p (omega (arith, t.before, h)) (omega (arith, t.before, few)) (rw e at held) in
            (k, omega (arith, le, t.before), same ∙ t.own, goes)
      ]
    ]
