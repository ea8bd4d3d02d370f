-- ===== src/Lib.antt =====
-- liberated-claude-code: a proxy that serves the Anthropic API from OpenAI-compatible providers, and
-- a chat bot that runs Claude sessions for the messages of a conversation.
--
-- Four parts of the program are modelled: the path of a request and of its streamed answer, the
-- trees of messages with their queues, the rate limiters, and the transcript that a chat shows.
--
-- The streamed answer. A provider's chunks (`providers/openai_compat.py`) go through a parser of
-- thinking tags (`providers/common/think_parser.py`) and an event builder
-- (`providers/common/sse_builder.py`), which keeps the index and the state of each content block.
--   * Think: `ThinkTagParser`. Think.Spec reads a whole text character by character; Scan, Step,
--     Found and Good compare the parser's steps with it, Streaming puts a stream together. Texts are
--     lists of code points (Text). `feed_loop` runs on fuel, one more than the length of the buffer:
--     each turn that goes on shortens the buffer, so the loop ends by its own tests.
--   * Sse: Tools is `ToolCallState` and the tool part of `ContentBlockManager`, Builder is
--     `SSEBuilder` with the indices of the manager. An index of -1 is `none`. A method that yields
--     events is a function from a builder to a builder, events and a flag for an exception.
--     Protocol is the reader of the events that the Anthropic API describes; Slots, Kept, Blocks,
--     ToolBlocks, Compose and Close keep the builder in agreement with it.
--   * Stream: Chunk is what a chunk holds, ToolCalls is `_process_tool_call` and
--     `_flush_task_arg_buffers`, Response is `_stream_response_impl`. Tools, Flush, Calm,
--     Counted and WellFormed are its proofs.
--   * Errors: `providers/exceptions.py` and `providers/common/error_mapping.py`.
--   * Convert: `providers/common/message_converter.py`, from the messages of
--     `api/models/anthropic.py` to the body of a provider's request (Body); Readable and Kept are
--     about tool calls and their results.
--   * Heuristic: `providers/common/heuristic_tool_parser.py`, which Stream takes as an interface.
--     Patterns writes its regular expressions out, Parser is the class. The loop over parameters runs
--     on one turn more than the buffer has characters, since each match takes some off, and the loop
--     of `feed` on two more, since each turn that goes on leaves less outside a tool call; Shrinks,
--     Stretches and Ends are about that. Calm is about text that is no tool call.
-- `json`, `tiktoken`, whose encoder may raise, `uuid` and the lower case of a text are parameters, and
-- so is whether `_build_request_body`, which each provider has its own of, raises.
--
-- The trees (`messaging/trees`, `messaging/models.py`). Each conversation is a tree of nodes with a
-- queue; one node of a tree is processed at a time.
--   * Dict: dictionaries with text keys and sets of texts.
--   * Trees.Queue, Trees.Node, Trees.Tree: `_SnapshotQueue`, `MessageNode`, `MessageTree`. A node is
--     a shared object, so a write to it is a write to the entry under its key. Times are numbers,
--     and a call reads the clock once.
--   * Trees.Cancel: `cancel_tree` and `cancel_node` of `TreeQueueManager`; Drained and Cancelled are
--     the proofs. Trees.Cleanup: `cleanup_stale_nodes`, over all trees.
--   * Trees.Serial: `to_dict` and `from_dict` of nodes and trees. `isoformat` and `fromisoformat` of
--     times and the clock are parameters. A value of type `Any` is known by its identity.
--   * Trees.Branch: `get_descendants`, `remove_branch` and `get_pending_children`. The loops over a
--     stack of ids run on a given fuel, since nothing in the program bounds them. Shape describes
--     trees whose child lists form a forest, and as much fuel as the forest has ids is enough there;
--     Graft and Grown show that `add_node` builds such trees, Remove is about `remove_branch`.
--   * Trees.Manager: the operations of `TreeQueueManager` that work on branches or on all trees.
--   * Trees.Repository: `TreeRepository`, with `create_tree` and `add_to_tree` of the manager; Saved
--     is its saved form, and Restored what is read back.
--   * Trees.Processor: `TreeQueueProcessor` on one tree. A world holds the tree and its live tasks;
--     an event is one stretch of code between two waits, and any list of events is a schedule, so
--     each critical section under the tree's lock is one step. A task stands before its first line,
--     in the processor of the user, or between the two critical sections of its `finally`. The
--     world also keeps for which nodes tasks were created, as the event loop saw it.
--
-- The rate limiters, over an explicit clock of whole numbers.
--   * Limits.Window: `SlidingWindowLimiter` of `messaging/limiter.py`, which `providers/rate_limit.py`
--     repeats; one turn of its loop is a step. Bounds is about any run of turns.
--   * Limits.Requests: `GlobalRateLimiter` of `providers/rate_limit.py`. Retry is about
--     `execute_with_retry`, whose recursion counts the retries that are left; Streams is
--     `concurrency_slot`, with its `try` and `finally`, and any run of streams through it.
--   * Limits.Messages: `MessagingRateLimiter` of `messaging/limiter.py`: the queue that joins tasks
--     under one key, what its worker does with a task, and `fire_and_forget`. In Futures, a run is
--     any sequence of callers and of the worker's turns.
--
-- The transcript. The client's events are read by `messaging/event_parser.py` and shown by
-- `messaging/transcript.py`.
--   * Json: the values of a JSON document. Events: `parse_cli_event`; Written is about messages whose
--     blocks are known.
--   * Transcript: the segments and the buffer, with its content blocks. A segment is a shared object,
--     which the other fields name by its position. Subagents is the stack of open subagents, Apply is
--     `apply`, Render is `render` with the chat's markup as a record of functions. Kinds, Blocks,
--     Stacks and Runs keep the buffer well formed, Fits is about the length of the text, Nested about
--     a subagent that is opened and closed.
-- The text of a value that is no text and `json.dumps` are parameters.
--
-- Not modelled: HTTP and chat clients, the API server, configuration, processes, the start and the
-- shutdown of the limiter's worker, and in the trees the callbacks. A streamed
-- answer that is cancelled (`CancelledError` and `GeneratorExit`, which the handler does not catch) is
-- left out too.
pub mod Prelude
pub mod Text
pub mod Think
pub mod Dict
pub mod Trees
pub mod Sse
pub mod Stream
pub mod Errors
pub mod Limits
pub mod Heuristic
pub mod Convert
pub mod Json
pub mod Events
pub mod Transcript
pub mod Tests
