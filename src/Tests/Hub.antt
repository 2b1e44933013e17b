-- ===== src/Tests/Hub.antt =====
-- The hub of the map.
use go_lobby.Prelude.{nat_eq, [], ◌∷◌, true, false, ◌≡◌}
use go_lobby.Prelude.Text.{Str, codes, str_eq, str_beq}
use go_lobby.MapHub.{MapHub, new_map_hub, join_map, replace_subscriptions, broadcast_to_chunk}
use go_lobby.Prelude.{some}
use go_lobby.MapHub.Client.{handle_subscribe_chunks, handle_subscribe_chunks_lem, is_playable_text}
use go_lobby.Chunk.{parse_chunk_id, ensure_playable_chunk, chunk_grid_size, off_grid}
use go_lobby.Chunk.Numbers.{split, atoi}
use go_lobby.MapHub.Subscribe.{Agree, is_subscribed}
use go_lobby.MapHub.Agree.{start, join, replace, broadcast, Reach-Agree}

abbrev west : Str
west = codes "cn:6:0:1"

abbrev east : Str
east = codes "cn:6:0:2"

abbrev subscribed : MapHub
subscribed = replace_subscriptions 7 (west ∷ east ∷ west ∷ []) (join_map 7 new_map_hub)

-- Client 7 is slow, so the broadcast drops it.
Reach-Agree_example : Agree (broadcast_to_chunk (λ c. false) west subscribed).1
Reach-Agree_example =
    Reach-Agree (broadcast (λ c. false) west (replace 7 (west ∷ east ∷ west ∷ []) (join 7 start)))

-- A text that is not canonical parses too.
handle_subscribe_chunks_lem_example :
    is_subscribed 7
      (codes "cn:6:07:1")
      (handle_subscribe_chunks 7 (some (codes "cn:6:07:1" ∷ west ∷ [])) subscribed).1.clients
    ≡ true
unfolding is_playable_text parse_chunk_id split atoi str_beq ensure_playable_chunk chunk_grid_size
    off_grid
handle_subscribe_chunks_lem_example =
    handle_subscribe_chunks_lem 7 (codes "cn:6:07:1" ∷ west ∷ []) (codes "cn:6:07:1") subscribed
