-- ===== src/Store.antt =====
-- internal/store: the durable state of the bridge.
pub mod Schema
pub mod Inbox
pub mod Outbox
pub mod Edits
pub mod FinalActions
pub mod Replies
pub mod PreviewChats
pub mod Progress
pub mod Migrations
pub mod Bindings
pub mod SessionId
pub mod Starts
pub mod Settings
pub mod Topics
pub mod Followups
pub mod Cleanup
pub mod Recovery
pub mod DeliveryOrder
pub mod InboxLifecycle
pub mod HeaderSync
pub mod MigrationLock
pub mod Choices
pub mod Restart
pub mod Titles
pub mod StartCommit
pub mod Completions
pub mod ReplyOrder
pub mod MigrationSteps
pub mod Retention
pub mod SessionNames
pub mod RetentionDone
pub mod Tests
