-- ===== src/Tests.antt =====
-- The theorems at concrete inputs, and runs of the definitions. The hardware of the tests has one robot
-- of each kind of behaviour, and a world that counts.
mod World
mod Manager
mod Session
mod Wire
mod Rpc
mod Client
mod Policy
