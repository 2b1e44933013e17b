-- ===== src/Lib.antt =====
-- A verification library for go-lobby, a lobby server with a shared minefield.
--
-- The program. Users register and log in (internal/service/user_service.go, internal/auth), and the
-- middleware lets their requests in (internal/middleware, internal/handler). Players join a queue,
-- which forms teams (internal/service/match_queue_service.go), creates a match (match_service.go),
-- assigns it a clean chunk of the minefield (mine_match_service.go) and opens a room
-- (room_service.go), whose clients are told who is ready (internal/ws/room_hub.go). Players open and
-- flag cells of chunks, one operation after the other on the worker of the chunk
-- (chunk_service.go), and the subscribers of the chunk get the events (internal/ws/map_hub.go); in a
-- match the opened cells score, and a mine, a complete chunk or a result ends it. The result
-- travels as an event to the consumer (cmd/worker/main.go), which settles the ranks
-- (rank_service.go).
--
-- The files.
--   Prelude         names of the libraries and shared helpers: Boolean tests (Tests), lists, maps as
--                   association lists (Maps), results and errors (Results), integers with 64-bit
--                   wrap-around (Int), strings as bytes (Text), code that calls stores (Effect)
--   Chunk           internal/model/chunk.go and NormalizeChunkCell, EnsurePlayableChunk of
--                   internal/model/mine_state.go; Numbers (strconv.Atoi, %d, strings.Split),
--                   Parse (texts of identifiers), Cells (places in the world)
--   Mine            internal/model/mine.go; World (places that are mines)
--   ChunkState      MineChunkState and the functions of chunk_service.go that change it in memory
--   ZeroArea        openZeroArea of chunk_service.go; Region (what is to open), Visit (one round),
--                   Invariant and Loop (the loop)
--   ChunkService    openCellInWorker, flagCellInWorker and what they call; Reopen (expired
--                   closures), Consistent (what the stored cells say), Requests
--                   (OpenCell and FlagCell up to the worker)
--   Workers         acquireChunkWorker, releaseChunkWorker, runChunkWorker and
--                   removeIdleChunkWorker of chunk_service.go; Steps (requests and workers
--                   interleaved), Life (start and end), Order (every run)
--   Summary         GetChunkSummary and GetChunkSnapshot of chunk_service.go; Views
--                   (internal/dto/res/chunk_response.go and how a state shows in it), Demo
--                   (made-up chunks), Leaves (closed leaves below a chunk), Window
--                   (VisibleChunkRange and the loops over a window) with Cover (what they walk
--                   through), Listing (ListChunks) with Places (what is listed) and Single (an entry
--                   beside a single summary)
--   Responses       the values passed on to callers, internal/dto/res and internal/matchqueue
--   Match           internal/service/match_service.go
--   MineMatch       internal/service/mine_match_service.go; States (internal/model/mine_match.go and
--                   the stores), Score (scoreWinnerTeam), Winner (who wins), Locks (the locks of
--                   internal/repository/mine_match_repository.go), Contract (what a match relies on
--                   of locks and states), Chosen (which chunk it gets), Members (its users)
--   Redis           go-redis as the repositories call it, and what is documented of it
--   Repository      internal/repository: Chunks (mine_chunk_state_repository.go) with Saved (states
--                   and the set of closed chunks), Matches (mine_match_repository.go) with Users
--                   (what is written for the users of a match), Contract (the stores in Redis keep
--                   the contract), Assigned (a match that got a chunk), Queue
--                   (match_queue_repository.go) with Fifo (a queue of users), Leaderboard
--                   (leaderboard_repository.go)
--   MatchQueue      internal/service/match_queue_service.go; Entries (internal/matchqueue and the
--                   teams of a group), Teams (groups and promises to a user)
--   Room            internal/service/room_service.go; Ready (the state machine)
--   RoomHub         internal/ws/room_hub.go; Members (the segments as one map), Sending (the loop of
--                   a broadcast), Placed, Leave, Reach (every run), Client (internal/ws/client.go)
--                   with Session (a client while it is connected)
--   MapHub          internal/ws/map_hub.go; Indexes, Subscribe (single maps), Agree (both maps),
--                   Receivers (who gets a broadcast), Client (internal/ws/map_client.go)
--   Rank            internal/service/rank_service.go with internal/repository/rank_repository.go
--                   and the keys of sql/002_create_rank_table.sql; Settle (what is committed),
--                   Consumer (cmd/worker/main.go)
--   User            internal/service/user_service.go with internal/repository/user_repository.go and
--                   internal/auth; Login (from registration to token), Genuine (who gets one),
--                   Enrolled (the paths of a registration)
--   Handler         internal/handler; Auth (internal/middleware), Users with Session, Chunks with
--                   Events, Reads (of chunks), Lobby (queue, matches, leaderboard), Rooms
--   Tests           runs on concrete inputs, and theorems at inputs that meet their hypotheses
--
-- Conventions. A Go function is a function of the same name in antt's spelling, and parts of a long
-- one are helpers beside it. `(value, error)` is `Result`; errors are told apart by kind, and an
-- error that the code wraps keeps its kind. `int` is ℤ with `wrap64` where the code computes on
-- coordinates; identifiers of users, seasons and matches are numbers that are only compared; a time
-- is in nanoseconds. The scores of the ranks, a column of the database, are unbounded. A Go map is a
-- list of pairs with one entry for a key. A pointer that is compared is a number. Code that reads
-- clocks, stores or the database is a function of a world (`M W A`), and its stores are records of
-- operations, so that a theorem holds for every store that its hypotheses allow. Operations under
-- one mutex are single steps, and so is a send to or a receive from a channel.
--
-- Parameters. HMAC-SHA256 and floating-point numbers (`External` in Mine, `Floats` in
-- Summary.Views, `Float64` in Repository.Leaderboard), bcrypt and golang-jwt (`Bcrypt`, `Jwt` in
-- User), the hash of a room, the collation of the database, Redis and the database of the matches
-- (records of operations), encoding/json (`Json` in Repository, and what it makes of a body or a
-- message). The tables of the ranks and of the users are modelled, each statement may fail; of a
-- statement on the ranks that fails the answer may also be lost alone.
--
-- Fuel. The loop of openZeroArea runs on 131073 rounds: 1 for the start and 8 for each of the
-- 128 * 128 cells, each of which is expanded once; that no run needs more is part of its theorem.
--
-- Not modelled. Of the pumps of the sockets all but the rounds over a client's messages: deadlines,
-- pings of the server and the writing of what a channel holds; configuration, start-up and the
-- connection to the broker; the repositories of the matches in the database and of the seasons, which
-- are calls of SQL. Of strings.TrimSpace the white space of ASCII is modelled.
pub mod Prelude
pub mod Chunk
pub mod Mine
pub mod ChunkState
pub mod ZeroArea
pub mod Responses
pub mod Redis
pub mod Match
pub mod MineMatch
pub mod Repository
pub mod ChunkService
pub mod User
pub mod RoomHub
pub mod Summary
pub mod Handler
pub mod Workers
pub mod Rank
pub mod MapHub
pub mod Room
pub mod MatchQueue
mod Tests
