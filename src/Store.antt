-- ===== src/Store.antt =====
-- kedis_python/store.py: the engine that holds the keys.
pub mod State
pub mod Keys
pub mod Containers
pub mod Tracker
pub mod Coherent
pub mod Written
pub mod Command
pub mod Kept
pub mod KeptLists
pub mod KeptSets
pub mod Session
pub mod Housekeeping
pub mod View
pub mod PushView
pub mod Streams
pub mod StreamErrors
pub mod StreamsKept
pub mod StreamView
pub mod AddView
pub mod Replay
pub mod Alike
pub mod Recovered
pub mod RecoveredKeys
pub mod RecoveredLists
pub mod RecoveredPops
pub mod SetLaws
pub mod RecoveredSets
pub mod RecoveredRemovals
pub mod Recovery
pub mod Groups
pub mod GroupsRecovered
pub mod GroupKinds
pub mod GroupCommands
pub mod AddRecovered
pub mod GroupRecovery
