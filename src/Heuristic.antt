-- ===== src/Heuristic.antt =====
-- providers/common/heuristic_tool_parser.py: tool calls that a model writes as text.
pub mod Patterns
pub mod Parser
pub mod Shrinks
pub mod Stretches
pub mod Ends
pub mod Calm
