-- ===== src/Relay.antt =====
-- The relayer's submission tracker, relayer/src/relay-submission-tracker.ts, with the schema of its
-- store, relayer/src/relay-submission-store.ts.
--
-- `submit` and what it starts are cut at their `await`s into steps, since JavaScript runs other calls
-- only there. A record is an object that the Map and a running operation share: `heap` holds the
-- objects by number and `records` is the Map. `track`, which `submit` calls, is not in the file: what
-- is used of it is that it registers the key in `inflight` while the operation runs, and calls the
-- operation once.
pub mod Records
pub mod Keys
pub mod Tracker
pub mod Submit
pub mod Drive
pub mod Restore
pub mod Prune
pub mod Numbers
pub mod Steps
pub mod Invariant
pub mod Durable
pub mod Safety
pub mod Settled
pub mod Polling
pub mod Stats
