-- ===== src/Handler/Reads.antt =====
-- ListChunks, GetChunk and GetSnapshot of internal/handler/chunk_handler.go, which everybody may ask.
-- strconv.ParseFloat is a parameter.
use go_lobby.Prelude.{Option, none, some, ok, err, invalid_chunk_id}
use go_lobby.Chunk.Numbers.{atoi}
use go_lobby.Prelude.{ℕ}
use go_lobby.Prelude.Text.{Str}
use go_lobby.Prelude.Effect.{M}
use go_lobby.ChunkService.{ChunkService}
use go_lobby.Summary.Views.{Floats, ChunkBounds, ChunkSummary, ChunkSnapshot}
use go_lobby.Summary.{get_chunk_summary, get_chunk_snapshot}
use go_lobby.Summary.Listing.{ChunkListResponse, list_chunks}
use go_lobby.Handler.{Response, answered, respond, done}
use go_lobby.Handler.Chunks.{write_chunk_error}

module _ {W : Type 0} (fl : Floats) (s : ChunkService W) where
  unfoldable pub get_chunk_handler : Str → M W (Response ChunkSummary)
  get_chunk_handler raw w = respond write_chunk_error (answered done) (get_chunk_summary fl s raw w)

  unfoldable pub get_snapshot_handler : Str → M W (Response ChunkSnapshot)
  get_snapshot_handler raw w =
      respond write_chunk_error (answered done) (get_chunk_snapshot fl s raw w)

-- What the query of a request holds, a missing part as an empty text.
pub record BoxQuery : Type 0 where
  pub min_x : Str
  pub min_y : Str
  pub max_x : Str
  pub max_y : Str

-- `none` is an error of `strconv.ParseFloat`.
unfoldable pub parse_chunk_bbox : (Str → Option ℕ) → BoxQuery → Option ChunkBounds
parse_chunk_bbox parse_float q = elim (parse_float q.min_x) [
  | none ↦ none
  | some min_x ↦ elim (parse_float q.min_y) [
    | none ↦ none
    | some min_y ↦ elim (parse_float q.max_x) [
      | none ↦ none
      | some max_x ↦ elim (parse_float q.max_y) [
        | none ↦ none
        | some max_y ↦ some (record { min_x = min_x; min_y = min_y; max_x = max_x; max_y = max_y })
      ]
    ]
  ]
]

module _ {W : Type 0} (fl : Floats) (parse_float : Str → Option ℕ) (s : ChunkService W) where
  unfoldable pub list_chunks_handler : Str → BoxQuery → M W (Response ChunkListResponse)
  unfolding parse_chunk_bbox
  list_chunks_handler raw_level query w = elim (atoi raw_level) [
    | err _ ↦ (ok (write_chunk_error invalid_chunk_id), w)
    | ok level ↦ elim (parse_chunk_bbox parse_float query) [
      | none ↦ (ok (write_chunk_error invalid_chunk_id), w)
      | some bbox ↦ respond write_chunk_error (answered done) (list_chunks fl s level bbox w)
    ]
  ]
