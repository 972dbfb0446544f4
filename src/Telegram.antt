-- ===== src/Telegram.antt =====
-- internal/telegram: Markdown on its way to the chat.
pub mod Html
pub mod Syntax
pub mod Blocks
pub mod Tables
pub mod Convert
pub mod Literal
pub mod Split
pub mod Clip
pub mod Lines
pub mod Failures
pub mod Rendering
pub mod Fences
pub mod Chunks
pub mod LiteralParts
pub mod Advance
pub mod OddQuotes
pub mod Shown
pub mod WholeText
pub mod TableLimits
pub mod Limits
pub mod Messages
pub mod Clipping
pub mod Tests
