-- ===== src/Stream.antt =====
-- providers/openai_compat.py: `_stream_response_impl` turns the chunks of an OpenAI stream into
-- Anthropic events. The parser of textual tool calls is an interface here, `json` and the random
-- tool ids are parameters. The parsers never read the builder, so the events of a chunk are an
-- action on the builder that is made from the chunk and the parsers' states.
pub mod Chunk
pub mod ToolCalls
pub mod Response
pub mod Tools
pub mod Flush
pub mod Counted
pub mod WellFormed
pub mod Calm
