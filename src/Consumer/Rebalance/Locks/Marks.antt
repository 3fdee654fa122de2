-- ===== src/Consumer/Rebalance/Locks/Marks.antt =====
-- What the loops over the queues of one broker do to the object of one queue.
use test.Prelude.{
  ℕ, ◌≡◌, ◌≢◌, refl, sym, ap, subst, ◌∙◌, arith, Bytes, Bool, true, false, none, some, [], ◌∷◌,
  if◌then◌else◌, Option-cases, Bool-cases, inl, inr,
}
use test.SortedMap.{lookup}
use test.SortedMap.Keys.{bytes_order}
use test.SortedMap.Laws.{lookup-rest, lookup-first_entry}
use test.Message.MessageQueue.{MessageQueue, same_queue, same_queue_iff, message_queue_order}
use test.Consumer.Offset.Remote.{QueueSet, is_found}
use test.Consumer.ProcessQueue.{ProcessQueue}
use test.Consumer.Rebalance.{QueueTable}
use test.Consumer.Rebalance.Locks.{LockApi, Objects, set_locked, lock_found, unlock_others}

-- No object is in the table for two queues.
abbrev pub NoAlias : QueueTable → Type 0
NoAlias table =
    (m n : MessageQueue) (a : ℕ) → lookup m table ≡ some a → lookup n table ≡ some a → m ≡ n

-- A broker locks only queues that it was asked to lock.
abbrev pub OnlyAsked : LockApi → Type 0
OnlyAsked api =
    (addr : Bytes) (mqs ok : QueueSet) (mq : MessageQueue)
    → api.lock_batch_mq addr mqs ≡ some ok
    → lookup mq mqs ≡ none
    → lookup mq ok ≡ none

abbrev pub with_lock : ℕ → ProcessQueue → ProcessQueue
with_lock now q = record q { locked = true; last_lock_timestamp = now }

abbrev pub without_lock : ProcessQueue → ProcessQueue
without_lock q = record q { locked = false }

pub some_eq : (x y : QueueSet) → some x ≡ some y → x ≡ y
some_eq x y e = cc e

pub lookup-nil : (mq : MessageQueue) → lookup {V = Unit {0}} mq [] ≡ none
unfolding lookup
lookup-nil mq = refl

pub none_found : (name : Bytes) → lookup {V = QueueSet} name [] ≡ none
unfolding lookup
none_found name = refl

module _ (table : QueueTable) (na : NoAlias table) (mq : MessageQueue) (a : ℕ)
    (t : lookup mq table ≡ some a) where
  set_locked_self :
      (b : Bool) (now : ℕ) (objects : Objects)
      → set_locked b now mq table objects a
        ≡ (if b then with_lock now (objects a) else without_lock (objects a))
  unfolding set_locked
  set_locked_self b now objects = ground (arith, t)

  set_locked_other :
      (b : Bool) (now : ℕ) (n : MessageQueue) (objects : Objects)
      → n ≢ mq
      → set_locked b now n table objects a ≡ objects a
  unfolding set_locked
  set_locked_other b now n objects h = elim (Option-cases (lookup n table)) [
    | inl e ↦ ground (arith, e)
    | inr e ↦
        let apart : a ≢ e.0 = λ i. h (na n mq a (e.1 ∙ ap some (sym i)) t) in
        ground (arith, e.1, apart)
  ]

  pub lock_found-at :
      (now : ℕ) (mqs : QueueSet) (objects : Objects)
      → lock_found now mqs table objects a
        ≡ (if is_found (lookup mq mqs) then with_lock now (objects a) else objects a)
  unfolding lock_found lookup
  lock_found-at now [] objects = refl
  lock_found-at now ((n, u) ∷ mqs) objects = elim (Bool-cases (same_queue mq n)) [
    | inl e ↦
        let same : mq ≡ n = (same_queue_iff mq n).0 e in
        let first : lookup mq ((n, u) ∷ mqs) ≡ some u =
          ap (λ k. lookup k ((n, u) ∷ mqs)) same ∙ lookup-first_entry n u mqs in
        let turn : set_locked true now n table objects a ≡ with_lock now (objects a) =
          ap (λ k. set_locked true now k table objects a) (sym same)
          ∙ set_locked_self true now objects in
        ground (arith, first, turn, lock_found-at now mqs (set_locked true now n table objects))
    | inr e ↦
        let other : n ≢ mq = λ i. ground (arith, e, (same_queue_iff mq n).1 (sym i)) in
        let rest : lookup mq ((n, u) ∷ mqs) ≡ lookup mq mqs =
          lookup-rest n mq u mqs (λ i. other (sym i)) in
        ground (
          arith,
          rest,
          set_locked_other true now n objects other,
          lock_found-at now mqs (set_locked true now n table objects),
        )
  ]

  abbrev next : ℕ → QueueSet → MessageQueue → Objects → Objects
  next now ok n objects =
      if is_found (lookup n ok) then objects else set_locked false now n table objects

  next_self :
      (now : ℕ) (ok : QueueSet) (n : MessageQueue) (objects : Objects)
      → mq ≡ n
      → next now ok n objects a
        ≡ (if is_found (lookup mq ok) then objects a else without_lock (objects a))
  next_self now ok n objects e =
      subst
        (λ k.
          next now ok k objects a
          ≡ (if is_found (lookup mq ok) then objects a else without_lock (objects a)))
        e
        (elim (Bool-cases (is_found (lookup mq ok))) [
          | inl i ↦ ground (arith, i)
          | inr i ↦ ground (arith, i, set_locked_self false now objects)
        ])

  next_other :
      (now : ℕ) (ok : QueueSet) (n : MessageQueue) (objects : Objects)
      → n ≢ mq
      → next now ok n objects a ≡ objects a
  next_other now ok n objects h = elim (Bool-cases (is_found (lookup n ok))) [
    | inl i ↦ ground (arith, i)
    | inr i ↦ ground (arith, i, set_locked_other false now n objects h)
  ]

  pub unlock_others-at :
      (now : ℕ) (ok mqs : QueueSet) (objects : Objects)
      → unlock_others now ok mqs table objects a ≡ (
          if is_found (lookup mq mqs)
          then if is_found (lookup mq ok) then objects a else without_lock (objects a)
          else objects a)
  unfolding unlock_others
  unlock_others-at now ok [] objects =
      ap
        (λ o.
          if is_found o
          then (if is_found (lookup mq ok) then objects a else without_lock (objects a))
          else objects a)
        (sym (lookup-nil mq))
  unlock_others-at now ok ((n, u) ∷ mqs) objects = elim (Bool-cases (same_queue mq n)) [
    | inl e ↦
        let same : mq ≡ n = (same_queue_iff mq n).0 e in
        let first : lookup mq ((n, u) ∷ mqs) ≡ some u =
          ap (λ k. lookup k ((n, u) ∷ mqs)) same ∙ lookup-first_entry n u mqs in
        unlock_others-at now ok mqs (next now ok n objects)
        ∙ ground (arith, first, next_self now ok n objects same)
    | inr e ↦
        let other : n ≢ mq = λ i. ground (arith, e, (same_queue_iff mq n).1 (sym i)) in
        let rest : lookup mq ((n, u) ∷ mqs) ≡ lookup mq mqs =
          lookup-rest n mq u mqs (λ i. other (sym i)) in
        unlock_others-at now ok mqs (next now ok n objects)
        ∙ ground (arith, rest, next_other now ok n objects other)
  ]
