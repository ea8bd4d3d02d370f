-- ===== src/Sse.antt =====
-- providers/common/sse_builder.py: the content blocks of one streamed answer and the Anthropic
-- events that the builder yields. Events are data here; their JSON text is not modelled. An index
-- of -1 is `none`.
pub mod Tools
pub mod Builder
pub mod Protocol
pub mod Slots
pub mod Kept
pub mod Blocks
pub mod ToolBlocks
pub mod Compose
pub mod Close
