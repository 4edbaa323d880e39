-- ===== src/Examples.antt =====
-- The theorems at work on concrete data.
mod Calls
mod Unread
mod Ids
mod Elections
mod Publishing
mod Modes
mod Deletions
mod Rings
mod Readings
mod Newcomers
mod Invitations
mod Windows
mod Members
mod MessageRanges
mod Sessions
