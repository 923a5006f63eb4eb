-- ===== src/Delivery/Order.antt =====
-- That the worker delivers what it is given, each item once and in order, whatever the server answers.
use cxdb.Prelude.{
  ℕ, ◌≤◌, ◌-◌, min, ◌≡◌, ◌∙◌, refl, Option, none, some, sym, ap, Bool, true, false, not, ◌&&◌, List,
  [], ◌∷◌, ◌++◌, append-nil, append_assoc, Bool-cases, Option-cases, inl, inr, arith, if◌then◌else◌,
}
use mathlib.Core.Path.{subst}
use cxdb.Delivery.{
  ConversationItem, TurnEnvelope, QueueItem, DeliveryWorker, new_worker, Reply, WorkerMessage,
  handle_message, process_item, enter_degraded, settle, round, round_on, sent, sent_on, is_append,
  is_empty, initial_retry_delay, max_retry_delay, next_turn_ordinal, sleep_for, waited, waited_on,
}

-- The worker's own notes are left out of the count.
abbrev pub is_note : ConversationItem → Bool
is_note (ConversationItem.observed n) = false
is_note (ConversationItem.ingest_degraded depth) = true
is_note (ConversationItem.ingest_recovered depth) = true

abbrev pub own : QueueItem → List QueueItem → List QueueItem
own QueueItem.create_context rest = QueueItem.create_context ∷ rest
own (QueueItem.append turn) rest = if is_note turn.item then rest else QueueItem.append turn ∷ rest

-- The items that the session gave.
unfoldable pub given : List QueueItem → List QueueItem
given [] = []
given (item ∷ items) = own item (given items)

-- What was enqueued and what was delivered, in order, on the way to a state of the worker.
pub data Run (ordinal : ℕ) : List QueueItem → List QueueItem → DeliveryWorker → Type 0 where
  started : Run ordinal [] [] (new_worker ordinal)
  enqueued :
      {gave delivered : List QueueItem} {w : DeliveryWorker} (now : ℕ) (item : QueueItem)
      → Run ordinal gave delivered w
      → Run ordinal
          (gave ++ (item ∷ []))
          delivered
          (handle_message now (WorkerMessage.enqueue item) w)
  stopped :
      {gave delivered : List QueueItem} {w : DeliveryWorker} (now : ℕ)
      → Run ordinal gave delivered w
      → Run ordinal gave delivered (handle_message now WorkerMessage.stop w)
  -- The proxy makes a turn in the meantime.
  numbered :
      {gave delivered : List QueueItem} {w : DeliveryWorker}
      → Run ordinal gave delivered w
      → Run ordinal gave delivered (next_turn_ordinal w)
  worked :
      {gave delivered : List QueueItem} {w : DeliveryWorker} (reply : Reply)
      → Run ordinal gave delivered w
      → Run ordinal gave (delivered ++ sent reply w) (round reply w)

own-append : (item : QueueItem) (xs ys : List QueueItem) → own item (xs ++ ys) ≡ own item xs ++ ys
own-append QueueItem.create_context xs ys = refl
own-append (QueueItem.append turn) xs ys = elim (Bool-cases (is_note turn.item)) [
  | inl note ↦ rw note refl
  | inr turned ↦ rw turned refl
]

given-append : (xs ys : List QueueItem) → given (xs ++ ys) ≡ given xs ++ given ys
unfolding given
given-append [] ys = refl
given-append (item ∷ xs) ys = rw (given-append xs ys) (own-append item (given xs) (given ys))

-- A note at the end of the queue.
given-note :
    (items : List QueueItem) (turn : TurnEnvelope)
    → is_note turn.item ≡ true
    → given (items ++ (QueueItem.append turn ∷ [])) ≡ given items
unfolding given
given-note items turn note =
    given-append items (QueueItem.append turn ∷ []) ∙ rw note (append-nil (given items))

settle-given : (item : QueueItem) (w : DeliveryWorker) → given (settle item w).queue ≡ given w.queue
unfolding settle
settle-given item w =
    elim (Bool-cases (w.degraded && (is_empty w.queue && not w.recovery_turn_enqueued))) [
      | inl recover ↦ rw recover (given-note w.queue _ refl)
      | inr other ↦
          rw other
            (elim (Bool-cases
              (w.degraded && (w.recovery_turn_enqueued && (is_append item && is_empty w.queue)))) [
                | inl healthy ↦ rw healthy refl
                | inr same ↦ rw same refl
              ])
    ]

enter_degraded-given : (w : DeliveryWorker) → given (enter_degraded w).queue ≡ given w.queue
unfolding enter_degraded
enter_degraded-given w = elim (Bool-cases w.degraded) [
  | inl already ↦ rw already refl
  | inr now ↦ rw now (given-note w.queue _ refl)
]

round_on-given :
    (reply : Reply) (queue : List QueueItem) (w : DeliveryWorker)
    → w.queue ≡ queue
    → given (sent_on reply queue w) ++ given (round_on reply queue w).queue ≡ given queue
unfolding given
round_on-given reply [] w h = rw h refl
round_on-given reply (item ∷ rest) w h = elim (Option-cases (process_item reply item w)) [
  | inl failed ↦ rw failed (enter_degraded-given w ∙ ap given h)
  | inr (done, fine) ↦ rw fine (
      rw (settle-given item (record done { queue = rest; retry_delay = initial_retry_delay }))
        (sym (own-append item [] (given rest))))
]

-- A round keeps what was delivered and what is queued, taken together.
round-given :
    (reply : Reply) (w : DeliveryWorker)
    → given (sent reply w) ++ given (round reply w).queue ≡ given w.queue
unfolding round sent
round-given reply w = round_on-given reply w.queue w refl

abbrev InRange : DeliveryWorker → Type 0
InRange w = (initial_retry_delay ≤ w.retry_delay) × (w.retry_delay ≤ max_retry_delay)

settle-delay : (item : QueueItem) (w : DeliveryWorker) → (settle item w).retry_delay ≡ w.retry_delay
unfolding settle
settle-delay item w = ground arith

enter_degraded-delay : (w : DeliveryWorker) → (enter_degraded w).retry_delay ≡ w.retry_delay
unfolding enter_degraded
enter_degraded-delay w = ground arith

round_on-delay :
    (reply : Reply) (queue : List QueueItem) (w : DeliveryWorker)
    → InRange w
    → InRange (round_on reply queue w)
round_on-delay reply [] w h = h
round_on-delay reply (item ∷ rest) w h = elim (Option-cases (process_item reply item w)) [
  | inl failed ↦ rw failed (rw (enter_degraded-delay w) (omega arith))
  | inr (done, fine) ↦ rw fine (
      rw (settle-delay item (record done { queue = rest; retry_delay = initial_retry_delay }))
        (omega arith))
]

-- In every state that the worker reaches, whatever the server answers and in whatever order messages
-- come, what was delivered and then what is queued are together what was enqueued, in order and each
-- item once, the worker's own notes left out.
pub Run-given :
    {ordinal : ℕ} {gave delivered : List QueueItem} {w : DeliveryWorker}
    → Run ordinal gave delivered w
    → given (delivered ++ w.queue) ≡ given gave
unfolding handle_message given
Run-given Run.started = refl
Run-given (Run.enqueued {gave} {delivered} {w} now item run) =
    ap given (sym (append_assoc delivered w.queue (item ∷ [])))
    ∙ (given-append (delivered ++ w.queue) (item ∷ [])
        ∙ (rw (Run-given run) (sym (given-append gave (item ∷ [])))))
Run-given (Run.stopped now run) = Run-given run
Run-given (Run.numbered run) = Run-given run
Run-given (Run.worked {gave} {delivered} {w} reply run) =
    given-append (delivered ++ sent reply w) (round reply w).queue
    ∙ (rw (given-append delivered (sent reply w)) (
        rw (append_assoc (given delivered) (given (sent reply w)) (given (round reply w).queue))
          (rw (round-given reply w) (sym (given-append delivered w.queue) ∙ Run-given run))))

Run-InRange :
    {ordinal : ℕ} {gave delivered : List QueueItem} {w : DeliveryWorker}
    → Run ordinal gave delivered w
    → InRange w
unfolding handle_message round
Run-InRange Run.started = (omega arith, omega arith)
Run-InRange (Run.enqueued now item run) = Run-InRange run
Run-InRange (Run.stopped now run) = Run-InRange run
Run-InRange (Run.numbered run) = Run-InRange run
Run-InRange (Run.worked {w} reply run) = round_on-delay reply w.queue w (Run-InRange run)

-- A wait of 250 to 5000 milliseconds; with a deadline, one that does not go past it, and that is shorter
-- than 250 milliseconds only where less is left.
abbrev pub IsWait : ℕ → Option ℕ → ℕ → Type 0
IsWait now none wait = (250 ≤ wait) × (wait ≤ 5000)
IsWait now (some deadline) wait =
    (min (deadline - now) 250 ≤ wait) × (wait ≤ 5000) × (wait ≤ deadline - now)

sleep_for-IsWait :
    (now : ℕ) (deadline : Option ℕ) (delay : ℕ)
    → initial_retry_delay ≤ delay
    → delay ≤ max_retry_delay
    → IsWait now deadline (sleep_for now deadline delay)
sleep_for-IsWait now none delay low high = (low, high)
sleep_for-IsWait now (some deadline) delay low high = (omega arith, omega arith, omega arith)

enter_degraded-deadline :
    (w : DeliveryWorker) → (enter_degraded w).shutdown_deadline ≡ w.shutdown_deadline
unfolding enter_degraded
enter_degraded-deadline w = elim (Bool-cases w.degraded) [
  | inl already ↦ rw already refl
  | inr now ↦ rw now refl
]

waited_on-IsWait :
    (now : ℕ) (reply : Reply) (queue : List QueueItem) (w : DeliveryWorker) (wait : ℕ)
    → InRange w
    → waited_on now reply queue w ≡ some wait
    → IsWait now w.shutdown_deadline wait
waited_on-IsWait now reply [] w wait h e = cc
waited_on-IsWait now reply (item ∷ rest) w wait h e =
    elim (Option-cases (process_item reply item w)) [
      | inl failed ↦
          let f = enter_degraded w in
          let slept : some (sleep_for now f.shutdown_deadline f.retry_delay) ≡ some wait =
            rw failed at e in
          let same : sleep_for now f.shutdown_deadline f.retry_delay ≡ wait = cc in
          let low : initial_retry_delay ≤ f.retry_delay = rw (enter_degraded-delay w) (h.0) in
          let high : f.retry_delay ≤ max_retry_delay = rw (enter_degraded-delay w) (h.1) in
          let bounds : IsWait now f.shutdown_deadline wait =
            rw (← same) (sleep_for-IsWait now f.shutdown_deadline f.retry_delay low high) in
          subst (λ d. IsWait now d wait) (enter_degraded-deadline w) bounds
      | inr (done, fine) ↦ let bad : none ≡ some wait = rw fine at e in cc
    ]

-- In every state that the worker reaches, a try that fails is followed by a wait of 250 to 5000
-- milliseconds; once the worker was told to stop, the wait is also no longer than what is left until the
-- deadline, and shorter than 250 milliseconds only where less is left.
pub Run-waited :
    {ordinal : ℕ} {gave delivered : List QueueItem} {w : DeliveryWorker} (now : ℕ) (reply : Reply)
    (wait : ℕ)
    → Run ordinal gave delivered w
    → waited now reply w ≡ some wait
    → IsWait now w.shutdown_deadline wait
unfolding waited
Run-waited {w} now reply wait run e = waited_on-IsWait now reply w.queue w wait (Run-InRange run) e
