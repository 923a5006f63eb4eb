-- ===== src/Delivery.antt =====
-- cxtx/src/delivery.rs: the worker that delivers a session's turns. A round of its loop is a function of
-- what the server answers and of the clock, in milliseconds; messages come in between rounds. The ledger's
-- notes are left out. The session is its counter of ordinals, which it shares with the worker and raises
-- before it uses it.
pub mod Order
pub mod Drains
use cxdb.Prelude.{
  ℕ, zero, suc, ◌+◌, ◌*◌, ◌-◌, min, Bool, true, false, not, ◌&&◌, ◌||◌, leb, Option, none, some,
  List, [], ◌∷◌, ◌++◌, length, if◌then◌else◌,
}

-- What a turn is about: an observation of the proxy, or the worker's own note.
pub data ConversationItem : Type 0 where
  observed : ℕ → ConversationItem
  ingest_degraded : ℕ → ConversationItem
  ingest_recovered : ℕ → ConversationItem

pub record TurnEnvelope : Type 0 where
  pub ordinal : ℕ
  pub item : ConversationItem

pub data QueueItem : Type 0 where
  create_context : QueueItem
  append : TurnEnvelope → QueueItem

-- Milliseconds.
abbrev pub initial_retry_delay : ℕ
initial_retry_delay = 250

abbrev pub max_retry_delay : ℕ
max_retry_delay = 5000

abbrev pub shutdown_drain_timeout : ℕ
shutdown_drain_timeout = 5000

pub record DeliveryWorker : Type 0 where
  pub queue : List QueueItem
  pub context_id : Option ℕ
  pub degraded : Bool
  pub retry_delay : ℕ
  pub shutdown : Bool
  pub shutdown_deadline : Option ℕ
  pub recovery_turn_enqueued : Bool
  pub next_turn_ordinal : ℕ

abbrev pub new_worker : ℕ → DeliveryWorker
new_worker ordinal = record {
  queue = [];
  context_id = none;
  degraded = false;
  retry_delay = initial_retry_delay;
  shutdown = false;
  shutdown_deadline = none;
  recovery_turn_enqueued = false;
  next_turn_ordinal = ordinal;
}

-- What the server answers to a request: a new context, and whether a turn is taken.
pub record Reply : Type 0 where
  pub created : Option ℕ
  pub appended : Bool

pub data WorkerMessage : Type 0 where
  enqueue : QueueItem → WorkerMessage
  stop : WorkerMessage

unfoldable pub handle_message : ℕ → WorkerMessage → DeliveryWorker → DeliveryWorker
handle_message now (WorkerMessage.enqueue item) w = record w { queue = w.queue ++ (item ∷ []) }
handle_message now WorkerMessage.stop w = record w {
  shutdown = true;
  shutdown_deadline = some (now + shutdown_drain_timeout);
}

-- The session takes an ordinal, for a turn of the worker or of the proxy.
abbrev pub next_turn_ordinal : DeliveryWorker → DeliveryWorker
next_turn_ordinal w = record w { next_turn_ordinal = w.next_turn_ordinal + 1 }

-- The session makes a turn with its next ordinal, and the worker queues it.
abbrev pub push_note : ConversationItem → DeliveryWorker → DeliveryWorker
push_note item w =
    let numbered = next_turn_ordinal w in
    record numbered {
      queue =
          w.queue
          ++ (QueueItem.append (record { ordinal = numbered.next_turn_ordinal; item = item }) ∷ []);
    }

abbrev pub is_some {ℓ} : {A : Type ℓ} → Option A → Bool
is_some none = false
is_some (some a) = true

abbrev pub create_with : Option ℕ → DeliveryWorker → Option DeliveryWorker
create_with none w = none
create_with (some id) w = some (record w { context_id = some id })

-- `process_item`: no worker where it fails.
unfoldable pub process_item : Reply → QueueItem → DeliveryWorker → Option DeliveryWorker
process_item reply QueueItem.create_context w = create_with reply.created w
process_item reply (QueueItem.append turn) w =
    if is_some w.context_id && reply.appended then some w else none

unfoldable pub enter_degraded : DeliveryWorker → DeliveryWorker
enter_degraded w =
    if w.degraded
    then w
    else push_note (ConversationItem.ingest_degraded (length w.queue))
        (record w { degraded = true; recovery_turn_enqueued = false })

abbrev pub is_append : QueueItem → Bool
is_append QueueItem.create_context = false
is_append (QueueItem.append turn) = true

abbrev pub is_empty {ℓ} : {A : Type ℓ} → List A → Bool
is_empty [] = true
is_empty (a ∷ more) = false

-- Behind an item that was delivered.
unfoldable pub settle : QueueItem → DeliveryWorker → DeliveryWorker
settle item w =
    if w.degraded && (is_empty w.queue && not w.recovery_turn_enqueued)
    then push_note (ConversationItem.ingest_recovered 0)
        (record w { recovery_turn_enqueued = true })
    else if w.degraded && (w.recovery_turn_enqueued && (is_append item && is_empty w.queue))
    then record w { degraded = false; recovery_turn_enqueued = false }
    else w

abbrev pub after_item :
    QueueItem → List QueueItem → DeliveryWorker → Option DeliveryWorker → DeliveryWorker
after_item item rest w (some done) =
    settle item (record done { queue = rest; retry_delay = initial_retry_delay })
after_item item rest w none =
    let failing = enter_degraded w in
    record failing { retry_delay = min (failing.retry_delay * 2) max_retry_delay }

abbrev pub round_on : Reply → List QueueItem → DeliveryWorker → DeliveryWorker
round_on reply [] w = w
round_on reply (item ∷ rest) w = after_item item rest w (process_item reply item w)

-- A round of `run` on a queue that is not empty.
unfoldable pub round : Reply → DeliveryWorker → DeliveryWorker
unfolding process_item settle enter_degraded
round reply w = round_on reply w.queue w

-- What a round delivers: the first item, where it does not fail.
abbrev pub sent_of : QueueItem → Option DeliveryWorker → List QueueItem
sent_of item none = []
sent_of item (some done) = item ∷ []

abbrev pub sent_on : Reply → List QueueItem → DeliveryWorker → List QueueItem
sent_on reply [] w = []
sent_on reply (item ∷ rest) w = sent_of item (process_item reply item w)

unfoldable pub sent : Reply → DeliveryWorker → List QueueItem
unfolding process_item
sent reply w = sent_on reply w.queue w

abbrev pub is_due : ℕ → Option ℕ → Bool
is_due now none = false
is_due now (some deadline) = leb deadline now

-- Whether the worker ends: it was told to, and has nothing left to deliver or no time.
unfoldable pub maybe_finish_shutdown : ℕ → DeliveryWorker → Bool
maybe_finish_shutdown now w = w.shutdown && (is_empty w.queue || is_due now w.shutdown_deadline)

-- No longer than what remains until the deadline; a deadline that is past leaves nothing.
abbrev pub sleep_for : ℕ → Option ℕ → ℕ → ℕ
sleep_for now none retry_delay = retry_delay
sleep_for now (some deadline) retry_delay = min (deadline - now) retry_delay

abbrev pub wait_of : ℕ → DeliveryWorker → Option DeliveryWorker → Option ℕ
wait_of now w (some done) = none
wait_of now w none =
    let failing = enter_degraded w in
    some (sleep_for now failing.shutdown_deadline failing.retry_delay)

abbrev pub waited_on : ℕ → Reply → List QueueItem → DeliveryWorker → Option ℕ
waited_on now reply [] w = none
waited_on now reply (item ∷ rest) w = wait_of now w (process_item reply item w)

-- How long a round waits behind a try that fails.
unfoldable pub waited : ℕ → Reply → DeliveryWorker → Option ℕ
unfolding process_item enter_degraded
waited now reply w = waited_on now reply w.queue w
