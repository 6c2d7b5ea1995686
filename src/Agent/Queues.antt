-- ===== src/Agent/Queues.antt =====
-- internal/agent/runtime.go: the steering and follow-up queues. The mutex makes each operation one
-- step; the time of a message that has none is an argument.
pub mod Order
use pi_go_coding_agent.Base.{
  ℕ, zero, suc, String, Bool, true, false, List, [], ◌∷◌, ◌++◌, Option, none, some, length, ◌+◌,
  ◌==◌, if◌then◌else◌,
}
use pi_go_coding_agent.Base.Text.{trim_space, equal_fold, ◌^^◌}
use pi_go_coding_agent.Types.{
  Role, user, assistant, tool, other, BlockType, text, ContentBlock, Message, text_message,
}
use pi_go_coding_agent.Session.World.{Result, ok, err}

pub data QueueMode : Type 0 where
  all one_at_a_time : QueueMode

pub record Queues : Type 0 where
  pub steering_queue : List Message
  pub follow_up_queue : List Message
  pub steering_mode : QueueMode
  pub follow_up_mode : QueueMode

-- The queues of a new runtime.
abbrev pub new_queues : Queues
new_queues = record {
  steering_queue = [];
  follow_up_queue = [];
  steering_mode = one_at_a_time;
  follow_up_mode = one_at_a_time;
}

-- normalizeQueueMode
unfoldable pub normalize_queue_mode : String → Result QueueMode
normalize_queue_mode value =
    let v = trim_space value in
    if equal_fold v "all"
    then ok all
    else if equal_fold v "one-at-a-time"
    then ok one_at_a_time
    else if equal_fold v "one_at_a_time"
    then ok one_at_a_time
    else if equal_fold v "oneatatime"
    then ok one_at_a_time
    else err ("invalid queue mode: " ^^ value)

unfoldable pub set_steering_mode : String → Queues → Result (Unit {0}) × Queues
set_steering_mode mode q = elim (normalize_queue_mode mode) [
  | ok m ↦ (ok tt, record q { steering_mode = m })
  | err e ↦ (err e, q)
]

unfoldable pub set_follow_up_mode : String → Queues → Result (Unit {0}) × Queues
set_follow_up_mode mode q = elim (normalize_queue_mode mode) [
  | ok m ↦ (ok tt, record q { follow_up_mode = m })
  | err e ↦ (err e, q)
]

-- hasMessageContent
unfoldable pub has_message_content : List ContentBlock → Bool
has_message_content [] = false
has_message_content (b ∷ bs) =
    let rest = has_message_content bs in
    elim b.type [ text ↦ if trim_space b.body == "" then rest else true | _ ↦ true ]

-- A message with no role becomes one of the user.
abbrev pub role_or_user : Role → Role
role_or_user (other s) = if s == "" then user else other s
role_or_user user = user
role_or_user assistant = assistant
role_or_user tool = tool

abbrev pub stamped_at : ℕ → ℕ → ℕ
stamped_at now zero = now
stamped_at now (suc t) = suc t

-- The checks of SteerMessage and FollowUpMessage.
unfoldable pub check_message : String → ℕ → Message → Result Message
check_message what now m = elim (role_or_user m.role) [
  | user ↦
      if has_message_content m.content
      then ok (record m { role = user; timestamp = stamped_at now m.timestamp })
      else err (what ^^ " message content is empty")
  | _ ↦ err (what ^^ " message role must be user")
]

unfoldable pub steer_message : ℕ → Message → Queues → Result (Unit {0}) × Queues
steer_message now m q = elim (check_message "steer" now m) [
  | ok m' ↦ (ok tt, record q { steering_queue = q.steering_queue ++ m' ∷ [] })
  | err e ↦ (err e, q)
]

unfoldable pub follow_up_message : ℕ → Message → Queues → Result (Unit {0}) × Queues
follow_up_message now m q = elim (check_message "follow-up" now m) [
  | ok m' ↦ (ok tt, record q { follow_up_queue = q.follow_up_queue ++ m' ∷ [] })
  | err e ↦ (err e, q)
]

-- Steer and FollowUp
unfoldable pub steer : ℕ → String → Queues → Result (Unit {0}) × Queues
unfolding steer_message
steer now body q =
    let line = trim_space body in
    if line == ""
    then (err "steer text is empty", q)
    else steer_message now (text_message now user line) q

unfoldable pub follow_up : ℕ → String → Queues → Result (Unit {0}) × Queues
unfolding follow_up_message
follow_up now body q =
    let line = trim_space body in
    if line == ""
    then (err "follow-up text is empty", q)
    else follow_up_message now (text_message now user line) q

-- What a dequeue takes from a queue, and what it leaves.
unfoldable pub take_messages : QueueMode → List Message → List Message × List Message
take_messages mode [] = ([], [])
take_messages all (m ∷ ms) = (m ∷ ms, [])
take_messages one_at_a_time (m ∷ ms) = (m ∷ [], ms)

unfoldable pub dequeue_steering : Queues → List Message × Queues
dequeue_steering q =
    let (taken, left) = take_messages q.steering_mode q.steering_queue in
    (taken, record q { steering_queue = left })

unfoldable pub dequeue_follow_up : Queues → List Message × Queues
dequeue_follow_up q =
    let (taken, left) = take_messages q.follow_up_mode q.follow_up_queue in
    (taken, record q { follow_up_queue = left })

-- PendingMessageCount
unfoldable pub pending_message_count : Queues → ℕ
pending_message_count q = length q.steering_queue + length q.follow_up_queue

-- hasQueuedMessages
unfoldable pub has_queued_messages : Queues → Bool
has_queued_messages q = elim q.steering_queue [
  | m ∷ ms ↦ true
  | [] ↦ elim q.follow_up_queue [ m ∷ ms ↦ true | [] ↦ false ]
]
