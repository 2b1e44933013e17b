-- ===== src/Repository/Matches.antt =====
-- internal/repository/mine_match_repository.go; the locks are in MineMatch/Locks.
use go_lobby.Prelude.{nat_eq, ◌++◌, ℕ, ◌+◌, Option, none, some, map, keys}
use go_lobby.Prelude.{Result, ok, err}
use go_lobby.Prelude.Int.{ℤ, pos, negsuc, two63}
use go_lobby.Prelude.Text.{Str, codes}
use go_lobby.Prelude.Effect.{M, Done, pure, fail, lift, ◌>>=◌}
use go_lobby.Chunk.Numbers.{itoa, atoi}
use go_lobby.Match.{ongoing, finished}
use go_lobby.MineMatch.States.{MineMatchState, MineMatchStore}
use go_lobby.MineMatch.Locks.{get_chunk_lock, try_lock_chunk, unlock_chunk}
use go_lobby.Redis.{Redis, put, drop_key}
use go_lobby.Repository.{Json}

-- `fmt.Sprintf("go_lobby:mine_match:%d", …)`
unfoldable pub mine_match_key : ℤ → Str
mine_match_key match_id = codes "go_lobby:mine_match:" ++ itoa match_id

unfoldable pub mine_match_user_key : ℕ → Str
mine_match_user_key user_id = codes "go_lobby:mine_match_user:" ++ itoa (pos user_id)

-- An int64 as an identifier, which is only compared: the negative ones are above all others.
abbrev pub id_of_int : ℤ → ℕ
id_of_int (pos n) = n
id_of_int (negsuc n) = two63 + n

module _ {W : Type 0} (rdb : Redis W) (json : Json MineMatchState) where
  unfoldable pub decoded_match : Option Str → M W (Option MineMatchState)
  decoded_match none = pure none
  decoded_match (some raw) = lift (json.decode raw) >>= λ state. pure (some state)

  unfoldable pub get_match_state : ℤ → M W (Option MineMatchState)
  unfolding decoded_match mine_match_key
  get_match_state match_id = rdb.get (mine_match_key match_id) >>= decoded_match

  unfoldable pub save_match_state : MineMatchState → M W Done
  unfolding mine_match_key
  save_match_state state =
      lift (json.encode state) >>= λ raw. rdb.set (mine_match_key (pos state.match_id)) raw

  unfoldable pub if_ongoing : Option MineMatchState → M W (Option MineMatchState)
  if_ongoing none = pure none
  if_ongoing (some state) = elim state.status [ ongoing ↦ pure (some state) | finished ↦ pure none ]

  unfoldable pub match_numbered : Result ℤ → M W (Option MineMatchState)
  unfolding get_match_state if_ongoing
  match_numbered (err e) = fail e
  match_numbered (ok match_id) = get_match_state match_id >>= if_ongoing

  unfoldable pub match_of : Option Str → M W (Option MineMatchState)
  unfolding match_numbered
  match_of none = pure none
  match_of (some raw) = match_numbered (atoi raw)

  unfoldable pub get_active_match_by_user : ℕ → M W (Option MineMatchState)
  unfolding match_of mine_match_user_key
  get_active_match_by_user user_id = rdb.get (mine_match_user_key user_id) >>= match_of

  unfoldable pub set_active_match_for_users : MineMatchState → M W Done
  unfolding mine_match_user_key
  set_active_match_for_users state = rdb.exec (
      map (λ user. put (mine_match_user_key user) (itoa (pos state.match_id)))
        (keys state.user_teams))

  unfoldable pub delete_active_match_for_users : MineMatchState → M W Done
  unfolding mine_match_user_key
  delete_active_match_for_users state =
      rdb.exec (map (λ user. drop_key (mine_match_user_key user)) (keys state.user_teams))

  -- `NewMineMatchRepository`, as the services see it.
  abbrev pub mine_matches : MineMatchStore W
  mine_matches = record {
    save_match_state = save_match_state;
    get_active_match_by_user = get_active_match_by_user;
    set_active_match_for_users = set_active_match_for_users;
    delete_active_match_for_users = delete_active_match_for_users;
    get_chunk_lock =
        λ season_id chunk_id. get_chunk_lock rdb season_id chunk_id >>= λ id. pure (id_of_int id);
    try_lock_chunk = try_lock_chunk rdb;
    unlock_chunk = unlock_chunk rdb;
  }
