-- ===== src/Responses.antt =====
-- The values that the services pass on to their callers: internal/dto/res and internal/matchqueue.
use go_lobby.Prelude.{ℕ, List, Bool, Option}
use go_lobby.Prelude.Int.{ℤ}
use go_lobby.Prelude.Text.{Str}
use go_lobby.ChunkState.{OpenedCell}

-- A team number is an int8, and a user is the bit pattern of its id.
pub record MatchedTeam : Type 0 where
  pub team_id : ℤ
  pub user_ids : List ℕ

-- An entry of `OpenedCells` has the fields of the cell of the state.
pub record OpenMineCellResponse : Type 0 where
  pub chunk_id : Str
  pub x : ℤ
  pub y : ℤ
  pub index : ℕ
  pub mine : Bool
  pub closed : Bool
  pub closed_at : Option ℕ
  pub closed_until : Option ℕ
  pub canceled : Bool
  pub reason : Str
  pub adjacent_mines : ℕ
  pub version : ℕ
  pub opened_at : ℕ
  pub new_opened_count : ℕ
  pub match_id : ℕ
  pub match_scores : List (ℕ × ℤ)
  pub match_finished : Bool
  pub win_team_no : Option ℤ
  pub opened_cells : List OpenedCell

pub record FlagMineCellResponse : Type 0 where
  pub chunk_id : Str
  pub x : ℤ
  pub y : ℤ
  pub index : ℕ
  pub flagged : Bool
  pub version : ℕ
