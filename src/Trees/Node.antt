-- ===== src/Trees/Node.antt =====
-- `MessageState` and `MessageNode` of messaging/trees/data.py, and `IncomingMessage` of
-- messaging/models.py. Times are numbers. A value of type `Any`, which the trees only hand on, is a
-- number too, the object's identity, and `none` is `None`.
use liberated_claude_code.Prelude.{
  ℕ, Bool, true, false, String, List, [], Option, none, some, str_eq, if◌then◌else◌,
}

pub data MessageState : Type 0 where
  pending in_progress completed error : MessageState

pub record IncomingMessage : Type 0 where
  pub text : String
  pub chat_id : String
  pub user_id : String
  pub message_id : String
  pub platform : String
  pub reply_to_message_id : Option String
  pub message_thread_id : Option String
  pub username : Option String
  pub status_message_id : Option String
  pub timestamp : ℕ
  pub raw_event : Option ℕ

pub record MessageNode : Type 0 where
  pub node_id : String
  pub incoming : IncomingMessage
  pub status_message_id : String
  pub state : MessageState
  pub parent_id : Option String
  pub session_id : Option String
  pub children_ids : List String
  pub created_at : ℕ
  pub completed_at : Option ℕ
  pub error_message : Option String
  pub context : Option ℕ

-- `MessageNode(...)` with its defaults, made at the time `now`.
unfoldable pub new : ℕ → String → IncomingMessage → String → Option String → MessageNode
new now node_id incoming status_message_id parent_id = record {
  node_id = node_id;
  incoming = incoming;
  status_message_id = status_message_id;
  state = pending;
  parent_id = parent_id;
  session_id = none;
  children_ids = [];
  created_at = now;
  completed_at = none;
  error_message = none;
  context = none;
}

unfoldable pub set_context : Option ℕ → MessageNode → MessageNode
set_context context node = record node { context = context }

-- `state in (COMPLETED, ERROR)`
unfoldable pub is_terminal : MessageState → Bool
is_terminal completed = true
is_terminal error = true
is_terminal _ = false

-- `state in (PENDING, IN_PROGRESS)`
unfoldable pub is_active : MessageState → Bool
is_active pending = true
is_active in_progress = true
is_active _ = false

-- `if value: target = value`: neither `None` nor the empty text is written.
unfoldable pub unless_falsy : Option String → Option String → Option String
unless_falsy none old = old
unless_falsy (some v) old = if str_eq v "" then old else some v

-- `MessageTree.set_node_error_sync`, on the node.
unfoldable pub set_node_error_sync : ℕ → String → MessageNode → MessageNode
set_node_error_sync now message node = record node {
  state = error;
  error_message = some message;
  completed_at = some now;
}

-- The body of `MessageTree.update_state`, on the node.
unfoldable pub update : ℕ → MessageState → Option String → Option String → MessageNode → MessageNode
unfolding unless_falsy is_terminal
update now state session_id error_message node = record node {
  state = state;
  session_id = unless_falsy session_id node.session_id;
  error_message = unless_falsy error_message node.error_message;
  completed_at = if is_terminal state then some now else node.completed_at;
}

-- `str | None` as a condition.
abbrev pub is_truthy : Option String → Bool
is_truthy none = false
is_truthy (some s) = if str_eq s "" then false else true
