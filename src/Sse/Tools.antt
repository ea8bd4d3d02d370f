-- ===== src/Sse/Tools.antt =====
-- `ToolCallState` and the tool part of `ContentBlockManager` of providers/common/sse_builder.py.
-- `json.loads` and `json.dumps` are parameters; what the code does with the value is written out.
use liberated_claude_code.Prelude.{
  ℕ, Bool, true, false, not, ◌&&◌, List, [], ◌∷◌, ◌++◌, Option, none, some, ◌==◌, if◌then◌else◌,
}
use liberated_claude_code.Text.{Text, starts_with, codes}

pub record ToolCallState : Type 0 where
  pub block_index : Option ℕ
  pub tool_id : Text
  pub name : Text
  pub contents : List Text
  pub started : Bool
  pub task_arg_buffer : Text
  pub task_args_emitted : Bool

-- `dict[int, ToolCallState]`, in insertion order.
abbrev pub ToolStates : Type 0
ToolStates = List (ℕ × ToolCallState)

unfoldable pub get_tool : ℕ → ToolStates → Option ToolCallState
get_tool k [] = none
get_tool k ((j, s) ∷ d) = if j == k then some s else get_tool k d

unfoldable pub put_tool : ℕ → ToolCallState → ToolStates → ToolStates
put_tool k s [] = (k, s) ∷ []
put_tool k s ((j, t) ∷ d) = if j == k then (j, s) ∷ d else (j, t) ∷ put_tool k s d

abbrev pub is_empty : Text → Bool
is_empty [] = true
is_empty (c ∷ s) = false

abbrev pub named : Text → ToolCallState
named name = record {
  block_index = none;
  tool_id = [];
  name = name;
  contents = [];
  started = false;
  task_arg_buffer = [];
  task_args_emitted = false;
}

-- A name that was registered before and the next fragment of it, or the name once more.
unfoldable pub merge_name : Text → Text → Text
merge_name prev name =
    if is_empty prev
    then name
    else if starts_with prev name
    then name
    else if starts_with name prev
    then prev
    else prev ++ name

unfoldable pub register_tool_name : ℕ → Text → ToolStates → ToolStates
register_tool_name index name d = elim (get_tool index d) [
  | none ↦ put_tool index (named name) d
  | some state ↦ put_tool index (record state { name = merge_name state.name name }) d
]

-- What `json.loads` returns, as far as the code looks into it: an object with the flag
-- `run_in_background` and its other items, or another value.
pub data Flag : Type 0 where
  unset is_false other_value : Flag

pub record JsonLib : Type 1 where
  pub Items : Type 0
  pub loads : Text → Option (Option (Flag × Items))
  pub dumps : Flag × Items → Text

module _ (json : JsonLib) where
  open json use {Items, loads, dumps}

  -- `if args_json.get("run_in_background") is not False: args_json["run_in_background"] = False`
  unfoldable pub force_foreground : Flag × Items → Flag × Items
  force_foreground (is_false, items) = (is_false, items)
  force_foreground (_, items) = (is_false, items)

  -- The outcome of `buffer_task_args`: still incomplete, the patched arguments, or the
  -- `AttributeError` for a complete value that is no object.
  pub data Buffered : Type 0 where
    incomplete : Buffered
    complete : Flag × Items → Buffered
    no_object : Buffered

  abbrev pub buffered_at : Option (Option (Flag × Items)) → ToolCallState → ToolCallState × Buffered
  buffered_at none s = (s, incomplete)
  buffered_at (some none) s = (s, no_object)
  buffered_at (some (some args)) s = (
    record s { task_args_emitted = true; task_arg_buffer = [] },
    complete (force_foreground args),
  )

  unfoldable pub buffer_task_args : ℕ → Text → ToolStates → ToolStates × Buffered
  buffer_task_args index args d = elim (get_tool index d) [
    | none ↦ (d, incomplete)
    | some state ↦
        if state.task_args_emitted
        then (d, incomplete)
        else (let s = record state { task_arg_buffer = state.task_arg_buffer ++ args } in
            let r = buffered_at (loads s.task_arg_buffer) s in (put_tool index r.0 d, r.1))
  ]

  -- The text that is flushed for a buffer: `{}` if it is no object.
  abbrev pub flushed_text : Option (Option (Flag × Items)) → Text
  flushed_text (some (some args)) = dumps (force_foreground args)
  flushed_text _ = codes "{}"

  abbrev pub wants_flush : ToolCallState → Bool
  wants_flush s = not (is_empty s.task_arg_buffer) && not s.task_args_emitted

  unfoldable pub flush_task_arg_buffers : ToolStates → ToolStates × List (ℕ × Text)
  flush_task_arg_buffers [] = ([], [])
  flush_task_arg_buffers ((k, s) ∷ d) =
      let r = flush_task_arg_buffers d in
      if wants_flush s
      then (
        (k, record s { task_args_emitted = true; task_arg_buffer = [] }) ∷ r.0,
        (k, flushed_text (loads s.task_arg_buffer)) ∷ r.1,
      )
      else ((k, s) ∷ r.0, r.1)
