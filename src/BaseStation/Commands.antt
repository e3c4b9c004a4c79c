-- ===== src/BaseStation/Commands.antt =====
-- `parseCommands` of base_station.cpp. Its chain of tests on the text is `classify`, in the order
-- of the source, and the bodies of the branches are the clauses of `execute`.
pub mod Classify
pub mod Execute
pub mod Queue
pub mod Normal
pub mod Grammar
pub mod Validity
pub mod Effects
pub mod Access
pub mod Results
pub mod Orders
pub mod LogText
pub mod Synced
pub mod Restart
