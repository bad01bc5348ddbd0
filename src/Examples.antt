-- ===== src/Examples.antt =====
-- Runs of the model on concrete inputs, and the theorems at inputs that meet their hypotheses.
mod Pool
mod Streams
mod Ids
mod Loop
mod Discovery
mod Requests
mod Server
mod Rpc
mod Runs
mod Queue
mod Closing
mod Clients
