-- ===== src/Tests/Runs.antt =====
-- The properties of the delivery worker and of a followed context at concrete runs.
use cxdb.Prelude.{ℕ, ◌≡◌, refl, true, false, none, some, List, [], ◌∷◌, ◌++◌, arith, nat_eq}
use cxdb.Client.{TurnView}
use cxdb.Client.Follow.{TurnClient, done, new_state, send_turns, sync_context}
use cxdb.Client.Follow.Bounds.{IsBounded, new_state-IsBounded, sync_context-IsBounded}
use cxdb.Client.Follow.Once.{send_turns_again}
use cxdb.Prelude.HashSet.{contains}
use cxdb.Prelude.HashSet
use cxdb.Delivery.{
  ConversationItem, QueueItem, DeliveryWorker, new_worker, Reply, handle_message, WorkerMessage,
  round, sent, waited, process_item, enter_degraded,
}
use cxdb.Delivery.Order.{Run, given, Run-given, IsWait, Run-waited}
use cxdb.Delivery.Drains.{Drained, rounds_drain}

abbrev lost : Reply
lost = record { created = none; appended = false }

abbrev answered : Reply
answered = record { created = some 4; appended = true }

abbrev turn_item : ℕ → QueueItem
turn_item n = QueueItem.append (record { ordinal = n; item = ConversationItem.observed n })

-- A context and a turn are asked for; the server is away for a round and then answers.
abbrev asked : DeliveryWorker
asked =
    handle_message 0 (WorkerMessage.enqueue (turn_item 1))
      (handle_message 0 (WorkerMessage.enqueue QueueItem.create_context) (new_worker 1))

abbrev resumed : DeliveryWorker
resumed = round answered (round lost asked)

resumed-Run :
    Run 1 (QueueItem.create_context ∷ turn_item 1 ∷ []) (QueueItem.create_context ∷ []) resumed
unfolding handle_message round sent
resumed-Run = Run.worked answered (
    Run.worked lost
      (Run.enqueued 0 (turn_item 1) (Run.enqueued 0 QueueItem.create_context Run.started)))

Run-given_example :
    given ((QueueItem.create_context ∷ []) ++ resumed.queue)
    ≡ given (QueueItem.create_context ∷ turn_item 1 ∷ [])
Run-given_example = Run-given resumed-Run

-- The worker is told to stop at 10 and tries at 4980, 30 milliseconds before the deadline.
abbrev hurried : DeliveryWorker
hurried = handle_message 10 WorkerMessage.stop asked

hurried-Run : Run 1 (QueueItem.create_context ∷ turn_item 1 ∷ []) [] hurried
unfolding handle_message
hurried-Run =
    Run.stopped 10
      (Run.enqueued 0 (turn_item 1) (Run.enqueued 0 QueueItem.create_context Run.started))

hurried_wait : waited 4980 lost hurried ≡ some 30
unfolding waited handle_message process_item enter_degraded
hurried_wait = refl

Run-waited_example : IsWait 4980 hurried.shutdown_deadline 30
Run-waited_example = Run-waited 4980 lost 30 hurried-Run hurried_wait

abbrev degraded_worker : DeliveryWorker
degraded_worker = record {
  queue = turn_item 1 ∷ turn_item 2 ∷ [];
  context_id = some 4;
  degraded = true;
  retry_delay = 2000;
  shutdown = false;
  shutdown_deadline = none;
  recovery_turn_enqueued = false;
  next_turn_ordinal = 2;
}

rounds_drain_example : Drained 3 answered degraded_worker (
    turn_item 1
    ∷ turn_item 2
    ∷ QueueItem.append (record { ordinal = 3; item = ConversationItem.ingest_recovered 0 })
    ∷ [])
rounds_drain_example =
    rounds_drain answered (turn_item 1 ∷ turn_item 2 ∷ []) degraded_worker refl (refl, (refl, tt))
      (omega arith) refl refl

abbrev followed_turn : ℕ → TurnView
followed_turn n = record {
  turn_id = n;
  parent_id = n;
  depth = n;
  type_id = [];
  type_version = 1;
  encoding = 1;
  compression = 0;
  payload_hash = [];
  payload = [];
}

abbrev page : List TurnView
page = followed_turn 1 ∷ followed_turn 2 ∷ []

abbrev page_client : TurnClient
page_client = record {
  get_head = done (record { context_id = 1; head_turn_id = 2; head_depth = 1 });
  get_last = λ limit. done page;
}

sync_context-IsBounded_example : IsBounded (sync_context page_client (λ turn. none) (new_state 1)).1
sync_context-IsBounded_example =
    sync_context-IsBounded page_client (λ turn. none) (new_state 1) (new_state-IsBounded 1)

send_turns_again_example :
    send_turns (λ turn. none) page (send_turns (λ turn. none) page (new_state 0)).1
    ≡ ([], (send_turns (λ turn. none) page (new_state 0)).1, none)
unfolding new_state send_turns contains HashSet.insert
send_turns_again_example =
    send_turns_again (λ turn. none) (λ turn. none) page (new_state 0) (omega arith) refl
