-- ===== src/Store.antt =====
-- The other tables of `MessageStore` (archive/v3/src/mutsumi_sync/memory/store.py): messages with
-- the notes in them, summaries, the inner journal, scheduled tasks, actions, the bot's state, media.
pub mod Table
pub mod Order
pub mod Messages
pub mod Summaries
pub mod Journal
pub mod Tasks
pub mod State
pub mod Media
