-- ===== src/Trees/Serial.antt =====
-- `to_dict` and `from_dict` of `MessageNode` and `MessageTree`, messaging/trees/data.py. The text of a time and its
-- reading, `isoformat` and `fromisoformat`, are parameters, and so is the clock, which says when a
-- node's dictionary is read. A missing key, an unknown state and a
-- value that is not of the kind that `to_dict` writes are `none`.
pub mod RoundTrip
use liberated_claude_code.Prelude.{
  ℕ, Bool, true, false, List, [], ◌∷◌, Option, none, some, String, str_eq, if◌then◌else◌,
}
use liberated_claude_code.Dict.{Dict, get, put}
use liberated_claude_code.Trees.Tree
use liberated_claude_code.Trees.Tree.{MessageTree}
use liberated_claude_code.Trees.Node.{
  MessageState, pending, in_progress, completed, error, IncomingMessage, MessageNode,
}

-- What stands in the dictionary of a node.
pub data Value : Type 0 where
  null : Value
  text : String → Value
  texts : List String → Value
  fields : Dict (Option String) → Value

abbrev pub optional : Option String → Value
optional none = null
optional (some s) = text s

-- state.value
abbrev pub state_value : MessageState → String
state_value pending = "pending"
state_value in_progress = "in_progress"
state_value completed = "completed"
state_value error = "error"

-- MessageState(value)
unfoldable pub state_of : String → Option MessageState
state_of s =
    if str_eq s "pending"
    then some pending
    else if str_eq s "in_progress"
    then some in_progress
    else if str_eq s "completed"
    then some completed
    else if str_eq s "error"
    then some error
    else none

abbrev pub incoming_to_dict : IncomingMessage → Dict (Option String)
incoming_to_dict m =
    ("text", some m.text)
    ∷ ("chat_id", some m.chat_id)
    ∷ ("user_id", some m.user_id)
    ∷ ("message_id", some m.message_id)
    ∷ ("platform", some m.platform)
    ∷ ("reply_to_message_id", m.reply_to_message_id)
    ∷ ("message_thread_id", m.message_thread_id)
    ∷ ("username", m.username)
    ∷ []

abbrev optional_time : (ℕ → String) → Option ℕ → Value
optional_time isoformat none = null
optional_time isoformat (some t) = text (isoformat t)

unfoldable pub to_dict : (ℕ → String) → MessageNode → Dict Value
to_dict isoformat node =
    ("node_id", text node.node_id)
    ∷ ("incoming", fields (incoming_to_dict node.incoming))
    ∷ ("status_message_id", text node.status_message_id)
    ∷ ("state", text (state_value node.state))
    ∷ ("parent_id", optional node.parent_id)
    ∷ ("session_id", optional node.session_id)
    ∷ ("children_ids", texts node.children_ids)
    ∷ ("created_at", text (isoformat node.created_at))
    ∷ ("completed_at", optional_time isoformat node.completed_at)
    ∷ ("error_message", optional node.error_message)
    ∷ []

abbrev pub bind {ℓ κ} : {A : Type ℓ} {B : Type κ} → Option A → (A → Option B) → Option B
bind none f = none
bind (some a) f = f a

abbrev as_text : Value → Option String
as_text (text s) = some s
as_text _ = none

-- data[key], a text
abbrev text_at : String → Dict Value → Option String
text_at key d = bind (get key d) as_text

abbrev as_optional : Option Value → Option (Option String)
as_optional none = some none
as_optional (some null) = some none
as_optional (some (text s)) = some (some s)
as_optional (some _) = none

-- data.get(key), a text or nothing
abbrev optional_at : String → Dict Value → Option (Option String)
optional_at key d = as_optional (get key d)

abbrev as_texts : Option Value → Option (List String)
as_texts none = some []
as_texts (some (texts xs)) = some xs
as_texts (some _) = none

abbrev as_fields : Value → Option (Dict (Option String))
as_fields (fields d) = some d
as_fields _ = none

abbrev time_of : (String → Option ℕ) → Option String → Option (Option ℕ)
time_of fromisoformat none = some none
time_of fromisoformat (some s) =
    if str_eq s "" then some none else bind (fromisoformat s) (λ t. some (some t))

-- incoming_data[key]
abbrev field_at : String → Dict (Option String) → Option String
field_at key d = bind (get key d) (λ x. x)

-- incoming_data.get(key)
abbrev field_or_none : String → Dict (Option String) → Option String
field_or_none = field_at

-- The fields that the dictionary has not got have their defaults, the timestamp the time `now`.
unfoldable pub incoming_from_dict : ℕ → Dict (Option String) → Option IncomingMessage
incoming_from_dict now d = bind (field_at "text" d) λ t. bind (field_at "chat_id" d) λ chat_id.
    bind (field_at "user_id" d) λ user_id. bind (field_at "message_id" d) λ message_id.
      bind (field_at "platform" d) λ platform. some (record {
        text = t;
        chat_id = chat_id;
        user_id = user_id;
        message_id = message_id;
        platform = platform;
        reply_to_message_id = field_or_none "reply_to_message_id" d;
        message_thread_id = field_or_none "message_thread_id" d;
        username = field_or_none "username" d;
        status_message_id = none;
        timestamp = now;
        raw_event = none;
      })

unfoldable pub from_dict : (Dict Value → ℕ) → (String → Option ℕ) → Dict Value → Option MessageNode
from_dict clock fromisoformat d =
    bind (bind (bind (get "incoming" d) as_fields) (incoming_from_dict (clock d))) λ incoming.
      bind (text_at "node_id" d) λ node_id.
        bind (text_at "status_message_id" d) λ status_message_id.
          bind (bind (text_at "state" d) state_of) λ state.
            bind (optional_at "parent_id" d) λ parent_id.
              bind (optional_at "session_id" d) λ session_id.
                bind (as_texts (get "children_ids" d)) λ children_ids.
                  bind (bind (text_at "created_at" d) fromisoformat) λ created_at.
                    bind (bind (optional_at "completed_at" d) (time_of fromisoformat))
                      λ completed_at. bind (optional_at "error_message" d) λ error_message.
                        some (record {
                          node_id = node_id;
                          incoming = incoming;
                          status_message_id = status_message_id;
                          state = state;
                          parent_id = parent_id;
                          session_id = session_id;
                          children_ids = children_ids;
                          created_at = created_at;
                          completed_at = completed_at;
                          error_message = error_message;
                          context = none;
                        })

-- `MessageTree.to_dict`: the root's id, and the nodes under their keys.
pub record SavedTree : Type 0 where
  pub root_id : String
  pub nodes : Dict (Dict Value)

abbrev pub save_nodes : (ℕ → String) → Dict MessageNode → Dict (Dict Value)
save_nodes isoformat [] = []
save_nodes isoformat ((k, n) ∷ d) = (k, to_dict isoformat n) ∷ save_nodes isoformat d

unfoldable pub tree_to_dict : (ℕ → String) → MessageTree → SavedTree
tree_to_dict isoformat t = record { root_id = t.root_id; nodes = save_nodes isoformat t.nodes }

-- `_add_node_from_dict`
unfoldable pub add_node_from_dict : MessageNode → MessageTree → MessageTree
add_node_from_dict node t = record t {
  nodes = put node.node_id node t.nodes;
  status_to_node = put node.status_message_id node.node_id t.status_to_node;
}

-- The nodes other than the root, one after the other.
unfoldable pub add_rest :
    (Dict Value → ℕ)
    → (String → Option ℕ)
    → String
    → Dict (Dict Value)
    → MessageTree
    → Option MessageTree
add_rest clock fromisoformat root_id [] t = some t
add_rest clock fromisoformat root_id ((node_id, node_data) ∷ d) t =
    let others =
      bind (from_dict clock fromisoformat node_data)
        λ node. add_rest clock fromisoformat root_id d (add_node_from_dict node t) in
    let rest = add_rest clock fromisoformat root_id d t in
    if str_eq node_id root_id then rest else others

-- `MessageTree.from_dict`
unfoldable pub tree_from_dict :
    (Dict Value → ℕ) → (String → Option ℕ) → SavedTree → Option MessageTree
tree_from_dict clock fromisoformat saved =
    bind (bind (get saved.root_id saved.nodes) (from_dict clock fromisoformat))
      λ root_node. add_rest clock fromisoformat saved.root_id saved.nodes (Tree.new root_node)
