-- ===== src/Tests/Summaries.antt =====
-- Closed leaves below a chunk.
use go_lobby.Prelude.{nat_eq, ◌+◌, List, [], ◌∷◌, ◌≡◌, refl, arith}
use go_lobby.Prelude.Text.{Str, codes, str_eq, str_beq}
use go_lobby.Prelude.Int.{◌+ℤ◌, ◌*ℤ◌}
use go_lobby.Chunk.{cn, parse_chunk_id}
use go_lobby.Chunk.Numbers.{split, atoi}
use go_lobby.Summary.Leaves.{chunk_at, count_closed_leaves, count_closed_leaves_lem, is_leaf_of}
use go_lobby.Summary.Leaves.{leaf_range_for_chunk, leaf_scale, in_range}

abbrev closed_leaves : List Str
closed_leaves =
    codes "cn:6:12:40"
    ∷ codes "cn:6:13:41"
    ∷ codes "cn:6:14:40"
    ∷ codes "cn:5:6:20"
    ∷ codes "x"
    ∷ []

two_below : count_closed_leaves (chunk_at cn 5 6 20) closed_leaves ≡ 2
unfolding count_closed_leaves is_leaf_of parse_chunk_id split atoi str_beq in_range
    leaf_range_for_chunk leaf_scale ◌*ℤ◌ ◌+ℤ◌
two_below = refl

count_closed_leaves_lem_example :
    count_closed_leaves (chunk_at cn 5 6 20) closed_leaves
    ≡ count_closed_leaves (chunk_at cn 6 12 40) closed_leaves
      + count_closed_leaves (chunk_at cn 6 13 40) closed_leaves
      + count_closed_leaves (chunk_at cn 6 12 41) closed_leaves
      + count_closed_leaves (chunk_at cn 6 13 41) closed_leaves
count_closed_leaves_lem_example = count_closed_leaves_lem cn 5 6 20 closed_leaves (omega arith)
