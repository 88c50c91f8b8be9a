-- ===== src/Tests.antt =====
-- Concrete functions that satisfy the hypotheses on Python's own operations, and runs of the
-- theorems on concrete inputs.
mod Codecs
mod Cursors
mod Iterating
mod Jobs
mod Pool
mod Scheduling
mod Following
mod Failing
mod Starting
mod Syncing
mod Locking
mod Emitting
mod Polling
mod Closing
mod Acquiring
mod Fetching
mod Composed
mod Configuring
mod Submitting
mod Throttling
mod Measuring
mod Loading
mod Slicing
mod Patching
mod Brokering
mod Restarting
mod Batches
mod Publishing
