-- ===== src/Delivery/Drains.antt =====
-- That the worker gets its queue delivered once the server answers.
use cxdb.Prelude.{
  ℕ, zero, suc, ◌+◌, ◌<◌, ◌≡◌, ◌∙◌, refl, ap, Bool, true, false, ◌&&◌, List, [], ◌∷◌, ◌++◌, not,
  if◌then◌else◌, length, All, Bool-cases, inl, inr, arith,
}
use cxdb.Delivery.{
  ConversationItem, sent, sent_on, QueueItem, DeliveryWorker, Reply, process_item, settle, round,
  round_on, initial_retry_delay, is_append, is_some,
}

-- The loop's rounds, all with the same answers of the server.
unfoldable pub rounds : ℕ → Reply → DeliveryWorker → DeliveryWorker
unfolding round
rounds zero reply w = w
rounds (suc n) reply w = rounds n reply (round reply w)

-- What those rounds deliver.
unfoldable pub rounds_sent : ℕ → Reply → DeliveryWorker → List QueueItem
unfolding sent
rounds_sent zero reply w = []
rounds_sent (suc n) reply w = sent reply w ++ rounds_sent n reply (round reply w)

-- The worker's note behind the last turn of a queue, where it is degraded and has not queued it yet.
abbrev pub recovery_note : DeliveryWorker → List QueueItem
recovery_note w =
    if w.degraded && not w.recovery_turn_enqueued
    then QueueItem.append
        (record { ordinal = w.next_turn_ordinal + 1; item = ConversationItem.ingest_recovered 0 })
      ∷ []
    else []

-- The queue is empty, the worker is not degraded, and the rounds delivered the items.
abbrev pub Drained : ℕ → Reply → DeliveryWorker → List QueueItem → Type 0
Drained n reply w items =
    ((rounds n reply w).queue ≡ [])
    × ((rounds n reply w).degraded ≡ false)
    × (rounds_sent n reply w ≡ items)

Drained-zero :
    (reply : Reply) (w : DeliveryWorker) → w.queue ≡ [] → w.degraded ≡ false → Drained 0 reply w []
unfolding rounds rounds_sent
Drained-zero reply w empty healthy = (empty, healthy, refl)

-- One round more, before the others.
Drained-suc :
    (n : ℕ) (reply : Reply) (w : DeliveryWorker) (sent_first more : List QueueItem)
    → sent reply w ≡ sent_first
    → Drained n reply (round reply w) more
    → Drained (suc n) reply w (sent_first ++ more)
unfolding rounds rounds_sent
Drained-suc n reply w sent_first more first (empty, healthy, rest) =
    (empty, healthy, rw (first, rest))

sent_on-append :
    (reply : Reply) (item : QueueItem) (rest : List QueueItem) (w : DeliveryWorker)
    → is_append item ≡ true
    → is_some w.context_id ≡ true
    → reply.appended ≡ true
    → sent_on reply (item ∷ rest) w ≡ item ∷ []
unfolding process_item
sent_on-append reply QueueItem.create_context rest w bad known taken = cc
sent_on-append reply (QueueItem.append turn) rest w turned known taken = rw known (rw taken refl)

sent-append :
    (reply : Reply) (item : QueueItem) (rest : List QueueItem) (w : DeliveryWorker)
    → w.queue ≡ item ∷ rest
    → is_append item ≡ true
    → is_some w.context_id ≡ true
    → reply.appended ≡ true
    → sent reply w ≡ item ∷ []
unfolding sent
sent-append reply item rest w h turn known taken =
    ap (λ q. sent_on reply q w) h ∙ sent_on-append reply item rest w turn known taken

-- A worker behind the delivery of the first item of its queue.
abbrev behind : List QueueItem → DeliveryWorker → DeliveryWorker
behind rest w = record w { queue = rest; retry_delay = initial_retry_delay }

round_on-append :
    (reply : Reply) (item : QueueItem) (rest : List QueueItem) (w : DeliveryWorker)
    → is_append item ≡ true
    → is_some w.context_id ≡ true
    → reply.appended ≡ true
    → round_on reply (item ∷ rest) w ≡ settle item (behind rest w)
unfolding process_item
round_on-append reply QueueItem.create_context rest w bad known taken = cc
round_on-append reply (QueueItem.append turn) rest w turned known taken =
    elim (Bool-cases (is_some w.context_id && reply.appended)) [
      | inl sent ↦ rw sent refl
      | inr lost ↦ absurd (ground (arith, lost))
    ]

round-append :
    (reply : Reply) (item : QueueItem) (rest : List QueueItem) (w : DeliveryWorker)
    → w.queue ≡ item ∷ rest
    → is_append item ≡ true
    → is_some w.context_id ≡ true
    → reply.appended ≡ true
    → round reply w ≡ settle item (behind rest w)
unfolding round
round-append reply item rest w h turn known taken =
    ap (λ q. round_on reply q w) h ∙ round_on-append reply item rest w turn known taken

and_false : (b : Bool) → (b && false) ≡ false
and_false true = refl
and_false false = refl

-- With items left, nothing more is done behind a delivery.
settle_more :
    (item next : QueueItem) (items : List QueueItem) (w : DeliveryWorker)
    → settle item (behind (next ∷ items) w) ≡ behind (next ∷ items) w
unfolding settle
settle_more item next items w =
    simp (and_false w.degraded, and_false w.recovery_turn_enqueued, and_false (is_append item)) refl

-- Behind the last turn of the queue: the note is delivered, where there is one.
last_round :
    (reply : Reply) (item : QueueItem) (w : DeliveryWorker) (degraded recovery : Bool)
    → w.degraded ≡ degraded
    → w.recovery_turn_enqueued ≡ recovery
    → is_append item ≡ true
    → is_some w.context_id ≡ true
    → reply.appended ≡ true
    → Drained 1 reply (settle item (behind [] w)) (recovery_note w)
unfolding settle round process_item rounds rounds_sent sent
last_round reply QueueItem.create_context w d r hd hr turn known taken = cc
last_round reply (QueueItem.append t) w false r hd hr turn known taken = rw hd (refl, refl, refl)
last_round reply (QueueItem.append t) w true true hd hr turn known taken =
    rw (hd, hr) (refl, refl, refl)
last_round reply (QueueItem.append t) w true false hd hr turn known taken =
    rw (hd, hr) (rw known (rw taken (refl, refl, refl)))

-- With a context created and a server that takes turns, as many rounds as the queue has turns, one or
-- more, and one round more deliver its turns in their order, each once, and behind them the note of the
-- recovery, where the worker is degraded and has not queued it; the queue is then empty and the worker
-- not degraded.
pub rounds_drain :
    (reply : Reply) (items : List QueueItem) (w : DeliveryWorker)
    → w.queue ≡ items
    → All (λ i. is_append i ≡ true) items
    → 0 < length items
    → is_some w.context_id ≡ true
    → reply.appended ≡ true
    → Drained (suc (length items)) reply w (items ++ recovery_note w)
rounds_drain reply [] w h turns some_item known taken = elim some_item [ ]
rounds_drain reply (item ∷ []) w h (turn, turns) some_item known taken =
    Drained-suc 1 reply w (item ∷ []) (recovery_note w)
      (sent-append reply item [] w h turn known taken)
      (rw (round-append reply item [] w h turn known taken)
        (last_round reply item w w.degraded w.recovery_turn_enqueued refl refl turn known taken))
rounds_drain reply (item ∷ next ∷ items) w h (turn, turns) some_item known taken =
    Drained-suc (suc (suc (length items))) reply w (item ∷ []) (next ∷ (items ++ recovery_note w))
      (sent-append reply item (next ∷ items) w h turn known taken)
      (rw (round-append reply item (next ∷ items) w h turn known taken) (
        rw (settle_more item next items w) (
          rounds_drain reply (next ∷ items) (behind (next ∷ items) w) refl turns (omega arith) known
            taken)))
