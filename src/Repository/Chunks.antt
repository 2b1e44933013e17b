-- ===== src/Repository/Chunks.antt =====
-- internal/repository/mine_chunk_state_repository.go. A nil map is an empty one.
use go_lobby.Prelude.{List, [], ◌∷◌, ◌++◌, ℕ, Option, none, some, if◌then◌else◌}
use go_lobby.Prelude.Int.{pos}
use go_lobby.Prelude.Text.{Str, codes}
use go_lobby.Prelude.Effect.{M, Done, pure, lift, ◌>>=◌}
use go_lobby.Chunk.Numbers.{itoa}
use go_lobby.ChunkState.{MineChunkState}
use go_lobby.MineMatch.States.{MineChunkStateStore}
use go_lobby.Redis.{Redis, Command, put, add_member, remove_member}
use go_lobby.Repository.{Json}

-- `fmt.Sprintf("go_lobby:mine:season:%d:chunk:%s", …)`
unfoldable pub mine_chunk_state_key : ℕ → Str → Str
mine_chunk_state_key season_id chunk_id =
    codes "go_lobby:mine:season:" ++ (itoa (pos season_id) ++ (codes ":chunk:" ++ chunk_id))

unfoldable pub mine_closed_chunk_set_key : ℕ → Str
mine_closed_chunk_set_key season_id =
    codes "go_lobby:mine:season:" ++ (itoa (pos season_id) ++ codes ":closed_chunks")

module _ {W : Type 0} (rdb : Redis W) (json : Json MineChunkState) where
  unfoldable pub decoded_state : Option Str → M W (Option MineChunkState)
  decoded_state none = pure none
  decoded_state (some raw) = lift (json.decode raw) >>= λ state. pure (some state)

  unfoldable pub get_state : ℕ → Str → M W (Option MineChunkState)
  unfolding decoded_state mine_chunk_state_key
  get_state season_id chunk_id = rdb.get (mine_chunk_state_key season_id chunk_id) >>= decoded_state

  unfoldable pub save_commands : MineChunkState → Str → List Command
  unfolding mine_chunk_state_key mine_closed_chunk_set_key
  save_commands state raw =
      put (mine_chunk_state_key state.season_id state.chunk_id) raw
      ∷ (if state.closed
          then add_member (mine_closed_chunk_set_key state.season_id) state.chunk_id
          else remove_member (mine_closed_chunk_set_key state.season_id) state.chunk_id)
      ∷ []

  unfoldable pub save_state : MineChunkState → M W Done
  unfolding save_commands
  save_state state = lift (json.encode state) >>= λ raw. rdb.exec (save_commands state raw)

  unfoldable pub list_closed_leaf_chunk_ids : ℕ → M W (List Str)
  unfolding mine_closed_chunk_set_key
  list_closed_leaf_chunk_ids season_id = rdb.s_members (mine_closed_chunk_set_key season_id)

  -- `NewMineChunkStateRepository`, as the services see it.
  abbrev pub chunk_states : MineChunkStateStore W
  chunk_states = record {
    get_state = get_state;
    save_state = save_state;
    list_closed_leaf_chunk_ids = list_closed_leaf_chunk_ids;
  }
