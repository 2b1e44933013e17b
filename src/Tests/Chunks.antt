-- ===== src/Tests/Chunks.antt =====
-- internal/model: identifiers, cells and mines.
use go_lobby.Prelude.{ℕ, ◌*◌, ◌%◌, ◌/◌, ◌<◌, ◌≡◌, refl, ◌↔◌, ok, err, some, arith}
use go_lobby.Prelude.{invalid_coord, cell_out_of_world, cell_out_of_range, leb}
use go_lobby.Prelude.Int.{ℤ, pos, negsuc}
use go_lobby.Prelude.Text.{codes}
use go_lobby.Chunk.{ChunkId, cn, parse_chunk_id, chunk_id_string, normalize_chunk_cell, chunk_size}
use go_lobby.Chunk.{ensure_playable_chunk, chunk_cell_index}
use go_lobby.Chunk.Parse.{IsCanonical, parse_chunk_id-chunk_id_string, parse_chunk_id-IsCanonical}
use go_lobby.Chunk.Parse.{chunk_id_string_inj}
use go_lobby.Chunk.Cells.{IsPlayable, Inside, place, world_size, normalize_chunk_cell_lem}
use go_lobby.Chunk.Cells.{chunk_cell_index_lem, ensure_playable_chunk_iff}
use go_lobby.Prelude.{nat_eq, lookup}
use go_lobby.ChunkState.{MineChunkState, new_mine_chunk_state}
use go_lobby.ZeroArea.Region.{index_of}
use go_lobby.ChunkService.{Effect, open_fresh}
use go_lobby.ChunkService.Consistent.{IsConsistent, mine_in, mines_around, EffectOn}
use go_lobby.ChunkService.Consistent.{open_fresh-IsConsistent}
use go_lobby.Mine.{External, MineSeason, is_mine, adjacent_mine_count}
use go_lobby.Mine.World.{is_mine-eq-mine_at, mine_at, around, mines_of, adjacent_mine_count_lem}
use go_lobby.Chunk.Numbers.{itoa}
use go_lobby.Chunk.Numbers.{split}
use go_lobby.Prelude.Text.{str_beq}
use go_lobby.Chunk.Numbers.{atoi}
use go_lobby.Chunk.{off_grid}
use go_lobby.Chunk.{global_coord}
use go_lobby.Prelude.Int.{wrap64}
use go_lobby.Prelude.Int.{◌+ℤ◌}
use go_lobby.Prelude.Int.{◌*ℤ◌}

abbrev leaf : ChunkId
leaf = record { region = cn; z = pos 6; x = pos 12; y = pos 40 }

leaf-IsCanonical : IsCanonical leaf
leaf-IsCanonical = record {
  region_some = λ e. cc;
  region_plain = omega arith;
  z_coord = omega arith;
  x_coord = omega arith;
  y_coord = omega arith;
}

leaf-IsPlayable : IsPlayable leaf
leaf-IsPlayable = record { in_cn = refl; at_leaf = refl; on_grid = omega arith }

prints : chunk_id_string leaf ≡ codes "cn:6:12:40"
unfolding chunk_id_string itoa
prints = refl

-- A text that is not the printed form is accepted too.
parses_signs : parse_chunk_id (codes "cn:+6:012:40") ≡ ok leaf
unfolding parse_chunk_id split str_beq atoi
parses_signs = refl

rejects_text : parse_chunk_id (codes "cn:6:x:40") ≡ err invalid_coord
unfolding parse_chunk_id split str_beq atoi
rejects_text = refl

crosses_west :
    normalize_chunk_cell leaf (negsuc 0) (pos 5) ≡ ok (record leaf { x = pos 11 }, pos 127, pos 5)
unfolding normalize_chunk_cell off_grid global_coord wrap64 ◌+ℤ◌ ◌*ℤ◌
crosses_west = refl

parse_chunk_id-chunk_id_string_example : parse_chunk_id (chunk_id_string leaf) ≡ ok leaf
parse_chunk_id-chunk_id_string_example = parse_chunk_id-chunk_id_string leaf leaf-IsCanonical

parse_chunk_id-IsCanonical_example : IsCanonical leaf
parse_chunk_id-IsCanonical_example =
    parse_chunk_id-IsCanonical (codes "cn:+6:012:40") leaf parses_signs

chunk_id_string_inj_example : leaf ≡ leaf
chunk_id_string_inj_example = chunk_id_string_inj leaf leaf leaf-IsCanonical leaf-IsCanonical refl

normalize_chunk_cell_lem_example :
    (Inside world_size (place leaf.x (negsuc 0)) (place leaf.y (pos 5))
      → (n : ChunkId × ℤ × ℤ) × (normalize_chunk_cell leaf (negsuc 0) (pos 5) ≡ ok n)
        × IsPlayable n.0
        × Inside chunk_size n.1 n.2
        × (place n.0.x n.1 ≡ place leaf.x (negsuc 0))
        × (place n.0.y n.2 ≡ place leaf.y (pos 5)))
    × (¬ Inside world_size (place leaf.x (negsuc 0)) (place leaf.y (pos 5))
        → normalize_chunk_cell leaf (negsuc 0) (pos 5) ≡ err cell_out_of_world)
normalize_chunk_cell_lem_example =
    normalize_chunk_cell_lem leaf (negsuc 0) (pos 5) leaf-IsPlayable (omega arith) (omega arith)

ensure_playable_chunk_iff_example : (ensure_playable_chunk leaf ≡ ok tt) ↔ IsPlayable leaf
ensure_playable_chunk_iff_example = ensure_playable_chunk_iff leaf

chunk_cell_index_lem_example :
    (Inside chunk_size (pos 3) (pos 2)
      → (i : ℕ) × (chunk_cell_index (pos 3) (pos 2) ≡ ok i)
        × (i < chunk_size * chunk_size)
        × (pos 3 ≡ pos (i % chunk_size))
        × (pos 2 ≡ pos (i / chunk_size)))
    × (¬ Inside chunk_size (pos 3) (pos 2)
        → chunk_cell_index (pos 3) (pos 2) ≡ err cell_out_of_range)
chunk_cell_index_lem_example = chunk_cell_index_lem (pos 3) (pos 2)

-- Fractions of a thousand in place of floats, and the length of the message in place of the hash.
abbrev thousandths : External
thousandths = record {
  le = leb;
  mul = λ rate max. rate * max / 1000;
  to_uint64 = λ n. n;
  float_zero = 0;
  float_one = 1000;
  float_max_uint64 = 18446744073709551615;
  hmac_sha256 = λ key message. message;
}

abbrev season : MineSeason
season = record {
  id = 1;
  code = codes "s1";
  seed = codes "seed";
  mine_rate = 150;
  algorithm_version = pos 1;
}

is_mine-eq-mine_at_example :
    (Inside world_size (place leaf.x (pos 3)) (place leaf.y (pos 2))
      → is_mine thousandths (some season) leaf (pos 3) (pos 2)
        ≡ ok (mine_at thousandths season (place leaf.x (pos 3)) (place leaf.y (pos 2))))
    × (¬ Inside world_size (place leaf.x (pos 3)) (place leaf.y (pos 2))
        → is_mine thousandths (some season) leaf (pos 3) (pos 2) ≡ err cell_out_of_world)
is_mine-eq-mine_at_example =
    is_mine-eq-mine_at thousandths season refl leaf leaf-IsPlayable (pos 3) (pos 2) (omega arith)
      (omega arith)

adjacent_mine_count_lem_example :
    adjacent_mine_count thousandths (some season) leaf (pos 0) (pos 127)
    ≡ ok (mines_of thousandths season (around (place leaf.x (pos 0)) (place leaf.y (pos 127))))
adjacent_mine_count_lem_example =
    adjacent_mine_count_lem thousandths season refl leaf leaf-IsPlayable (pos 0) (pos 127)
      (omega arith)

abbrev untouched : MineChunkState
untouched = new_mine_chunk_state 1 (codes "cn:6:12:40")

untouched-IsConsistent :
    IsConsistent
      (mine_in thousandths season refl leaf leaf-IsPlayable 300 7 100 untouched)
      (mines_around thousandths season refl leaf leaf-IsPlayable 300 7 100 untouched)
      untouched
unfolding new_mine_chunk_state lookup
untouched-IsConsistent i c found = cc

open_fresh-IsConsistent_example :
    (e : Effect) × (open_fresh thousandths 300 7 100 season leaf untouched
        (pos 5)
        (pos 6)
        (index_of (pos 5, pos 6))
      ≡ ok e)
    × EffectOn
        (IsConsistent
          (mine_in thousandths season refl leaf leaf-IsPlayable 300 7 100 untouched)
          (mines_around thousandths season refl leaf leaf-IsPlayable 300 7 100 untouched))
        e
open_fresh-IsConsistent_example =
    open_fresh-IsConsistent thousandths season refl leaf leaf-IsPlayable 300 7 100 untouched (pos 5)
      (pos 6) (omega arith) untouched-IsConsistent
