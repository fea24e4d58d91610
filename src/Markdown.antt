-- ===== src/Markdown.antt =====
-- shared/lib/parse-markdown.ts: the text of a message as a tree. Each regular expression of the
-- source is a function on the text that is left.
pub mod Nodes
pub mod Patterns
pub mod Inline
pub mod Blocks
pub mod Consumption
pub mod Fuel
pub mod Safety
pub mod SafeBlocks
pub mod BlockFuel
mod Tests
