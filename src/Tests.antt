-- ===== src/Tests.antt =====
-- Runs of the model on concrete inputs, and the theorems at inputs that meet their hypotheses.
mod Chunks
mod Areas
mod Matches
mod Lobby
mod Queue
mod Hub
mod Workers
mod Users
mod Sockets
mod Summaries
mod Lists
mod Locks
mod Stores
mod Assigned
mod Boards
