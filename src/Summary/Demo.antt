-- ===== src/Summary/Demo.antt =====
-- The made-up chunks of internal/service/chunk_service.go.
use go_lobby.Prelude.{nat_eq, ℕ, zero, suc, ◌+◌, ◌*◌, ◌%◌, List, [], ◌∷◌, ◌++◌}
use go_lobby.Prelude.{◌||◌, if◌then◌else◌}
use go_lobby.Prelude.{length, eqb, ◌==◌}
use go_lobby.Prelude.Int.{pos, pos_part, int_eq}
use go_lobby.Prelude.Text.{Str}
use go_lobby.Chunk.{ChunkId, chunk_max_level, chunk_size}
use go_lobby.Summary.Views.{SummaryState, OpenedCellResponse, normal, opening, closed, hot}

-- Without stores a chunk shows made-up values.
unfoldable pub demo_chunk_state : ChunkId → SummaryState
demo_chunk_state id =
    let score = (pos_part id.x * 31 + pos_part id.y * 17 + pos_part id.z * 13) % 23 in
    if eqb score 0 || eqb score 7
    then closed
    else if eqb score 3 || eqb score 11
    then hot
    else if eqb score 5 || eqb score 19
    then opening
    else normal

-- Ten o'clock of 25 May 2026 at UTC+8, and the names of the two players in UTF-8.
abbrev demo_opened_at : ℕ
demo_opened_at = 1779674400000000000

abbrev demo_name : ℕ → Str
demo_name letter =
    230 ∷ 188 ∷ 148 ∷ 231 ∷ 164 ∷ 186 ∷ 231 ∷ 142 ∷ 169 ∷ 229 ∷ 174 ∷ 182 ∷ letter ∷ []

abbrev demo_cell : ℕ → ℕ → OpenedCellResponse
demo_cell x y =
    let second = eqb ((x + y) % 2) 1 in
    record {
      x = pos x;
      y = pos y;
      index = y * chunk_size + x;
      adjacent_mines = 0;
      user_id = if second then 1002 else 1001;
      nickname = demo_name (if second then b'B' else b'A');
      opened_at = demo_opened_at;
    }

-- The two loops over sixteen rows and columns.
demo_row : ℕ → ℕ → ℕ → List OpenedCellResponse
demo_row zero x y = []
demo_row (suc left) x y = demo_cell x y ∷ demo_row left (x + 1) y

demo_rows : ℕ → ℕ → ℕ → List OpenedCellResponse
unfolding demo_row
demo_rows zero x y = []
demo_rows (suc left) x y = demo_row 16 x y ++ demo_rows left x (y + 1)

unfoldable pub build_demo_opened_cells : ChunkId → List OpenedCellResponse
unfolding demo_rows
build_demo_opened_cells id =
    demo_rows 16 (38 + (pos_part id.x * 11) % 28) (42 + (pos_part id.y * 7) % 28)

unfoldable pub demo_opened_count : ChunkId → ℕ
unfolding build_demo_opened_cells
demo_opened_count id =
    if id.z == pos chunk_max_level
    then length (build_demo_opened_cells id)
    else 80 + (pos_part id.x * 43 + pos_part id.y * 29 + pos_part id.z * 97) % 600
