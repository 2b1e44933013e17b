-- ===== src/Repository.antt =====
-- internal/repository: what the services store in Redis. encoding/json is a parameter.
pub mod Chunks
pub mod Matches
pub mod Contract
pub mod Users
pub mod Assigned
pub mod Saved
pub mod Queue
pub mod Fifo
pub mod Leaderboard
use go_lobby.Prelude.{Result}
use go_lobby.Prelude.Text.{Str}

pub record Json (A : Type 0) : Type 0 where
  pub encode : A → Result Str
  pub decode : Str → Result A
