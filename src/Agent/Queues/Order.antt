-- ===== src/Agent/Queues/Order.antt =====
-- internal/agent/runtime.go: the order of the queued messages.
use pi_go_coding_agent.Base.{
  ℕ, List, [], ◌∷◌, ◌++◌, append-nil, append_assoc, ◌≡◌, refl, ◌∙◌, arith, length, inl, inr, ◌⊎◌,
}
use pi_go_coding_agent.Types.{Message}
use pi_go_coding_agent.Session.World.{ok, err}
use pi_go_coding_agent.Agent.Queues.{
  Queues, QueueMode, all, one_at_a_time, take_messages, steer_message, follow_up_message,
  dequeue_steering, dequeue_follow_up, check_message,
}

-- An operation on the queues: a message that arrives, or a dequeue of the run.
pub data QueueOp : Type 0 where
  steers follow_ups : ℕ → Message → QueueOp
  take_steering take_follow_up : QueueOp

-- What goes in and what comes out of the steering queue.
unfoldable pub accepted : ℕ → Message → List Message
accepted now m = elim (check_message "steer" now m) [ ok m' ↦ m' ∷ [] | err e ↦ [] ]

unfoldable pub run_ops : List QueueOp → Queues → Queues
run_ops [] q = q
run_ops (steers now m ∷ ops) q = run_ops ops (steer_message now m q).1
run_ops (follow_ups now m ∷ ops) q = run_ops ops (follow_up_message now m q).1
run_ops (take_steering ∷ ops) q = run_ops ops (dequeue_steering q).1
run_ops (take_follow_up ∷ ops) q = run_ops ops (dequeue_follow_up q).1

unfoldable pub steered : List QueueOp → List Message
steered [] = []
steered (steers now m ∷ ops) = accepted now m ++ steered ops
steered (follow_ups now m ∷ ops) = steered ops
steered (take_steering ∷ ops) = steered ops
steered (take_follow_up ∷ ops) = steered ops

unfoldable pub taken : List QueueOp → Queues → List Message
taken [] q = []
taken (steers now m ∷ ops) q = taken ops (steer_message now m q).1
taken (follow_ups now m ∷ ops) q = taken ops (follow_up_message now m q).1
taken (take_steering ∷ ops) q = (dequeue_steering q).0 ++ taken ops (dequeue_steering q).1
taken (take_follow_up ∷ ops) q = taken ops (dequeue_follow_up q).1

take-split :
    (mode : QueueMode) (ms : List Message)
    → (take_messages mode ms).0 ++ (take_messages mode ms).1 ≡ ms
unfolding take_messages
take-split mode [] = refl
take-split all (m ∷ ms) = rw append-nil
take-split one_at_a_time (m ∷ ms) = refl

steering-steer_message :
    (now : ℕ) (m : Message) (q : Queues)
    → (steer_message now m q).1.steering_queue ≡ q.steering_queue ++ accepted now m
unfolding steer_message accepted
steering-steer_message now m q = ground (arith, append-nil q.steering_queue)

steering-follow_up_message :
    (now : ℕ) (m : Message) (q : Queues)
    → (follow_up_message now m q).1.steering_queue ≡ q.steering_queue
unfolding follow_up_message
steering-follow_up_message now m q = ground arith

dequeue_steering-split :
    (q : Queues)
    → (dequeue_steering q).0 ++ (dequeue_steering q).1.steering_queue ≡ q.steering_queue
unfolding dequeue_steering
dequeue_steering-split q = take-split q.steering_mode q.steering_queue

steering-dequeue_follow_up :
    (q : Queues) → (dequeue_follow_up q).1.steering_queue ≡ q.steering_queue
unfolding dequeue_follow_up
steering-dequeue_follow_up q = refl

-- Whatever the order of arrivals and dequeues, the steering messages that the run has taken,
-- followed by those still queued, are those queued at first and those accepted since, in order.
pub steering_fifo :
    (ops : List QueueOp) (q : Queues)
    → taken ops q ++ (run_ops ops q).steering_queue ≡ q.steering_queue ++ steered ops
unfolding taken run_ops steered
steering_fifo [] q = rw append-nil
steering_fifo (steers now m ∷ ops) q =
    steering_fifo ops (steer_message now m q).1
    ∙ rw (
      steering-steer_message now m q,
      append_assoc q.steering_queue (accepted now m) (steered ops),
    )
steering_fifo (follow_ups now m ∷ ops) q =
    steering_fifo ops (follow_up_message now m q).1 ∙ rw (steering-follow_up_message now m q)
steering_fifo (take_steering ∷ ops) q = rw (
  append_assoc (dequeue_steering q).0 (taken ops (dequeue_steering q).1)
      (run_ops ops (dequeue_steering q).1).steering_queue,
  steering_fifo ops (dequeue_steering q).1,
  ← append_assoc (dequeue_steering q).0 (dequeue_steering q).1.steering_queue (steered ops),
  dequeue_steering-split q,
)
steering_fifo (take_follow_up ∷ ops) q =
    steering_fifo ops (dequeue_follow_up q).1 ∙ rw (steering-dequeue_follow_up q)

-- In the mode of one at a time a dequeue takes one message of a queue that has some; in the mode
-- of all it takes every message, and leaves none.
pub take_messages_count :
    (mode : QueueMode) (m : Message) (ms : List Message)
    → ((mode ≡ one_at_a_time) × (length (take_messages mode (m ∷ ms)).0 ≡ 1))
      ⊎ ((mode ≡ all) × ((take_messages mode (m ∷ ms)).1 ≡ []))
unfolding take_messages
take_messages_count all m ms = inr (refl, refl)
take_messages_count one_at_a_time m ms = inl (refl, refl)
