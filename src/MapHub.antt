-- ===== src/MapHub.antt =====
-- internal/ws/map_hub.go: who is subscribed to which chunk, kept in two maps, one for each
-- direction. A client is the number of its pointer. A nil map reads as an empty one, and the mutex
-- makes each operation one step. Maps are walked in the order of their entries.
pub mod Indexes
pub mod Subscribe
pub mod Agree
pub mod Receivers
pub mod Client
use go_lobby.Prelude.{nat_eq, ℕ, List, [], ◌∷◌, ◌++◌, Bool, true, false, Option, none, some, not}
use go_lobby.Prelude.{
  lookup, insert, delete, keys, has_value, contains, if◌then◌else◌, Result, ok, err,
}
use go_lobby.Prelude.{panic, Eq}
use go_lobby.Prelude.Text.{Str, str_eq}

abbrev pub Chunks : Type 0
Chunks = List (Str × List (ℕ × Bool))

abbrev pub Subscriptions : Type 0
Subscriptions = List (Str × Bool)

-- `closed` are the clients whose channel was closed, which `sync.Once` allows only once.
pub record MapHub : Type 0 where
  pub chunks : Chunks
  pub clients : List (ℕ × Subscriptions)
  pub closed : List ℕ

abbrev pub entries {ℓ} : {A : Type ℓ} → Option (List A) → List A
entries none = []
entries (some m) = m

abbrev pub is_empty {ℓ} : {A : Type ℓ} → List A → Bool
is_empty [] = true
is_empty (x ∷ xs) = false

unfoldable pub new_map_hub : MapHub
new_map_hub = record { chunks = []; clients = []; closed = [] }

unfoldable pub join_found : ℕ → MapHub → Option Subscriptions → MapHub
join_found client h none = record h { clients = insert client [] h.clients }
join_found client h (some m) = h

unfoldable pub join_map : ℕ → MapHub → MapHub
unfolding join_found
join_map client h = join_found client h (lookup client h.clients)

-- One round of `removeClientSubscriptionsLocked`: a chunk without clients is dropped.
unfoldable pub drop_found : Str → ℕ → Chunks → Option (List (ℕ × Bool)) → Chunks
drop_found chunk client chunks none = chunks
drop_found chunk client chunks (some row) =
    let row' = delete client row in
    if is_empty row' then delete chunk chunks else insert chunk row' chunks

unfoldable pub drop_client : List Str → ℕ → Chunks → Chunks
unfolding drop_found
drop_client [] client chunks = chunks
drop_client (chunk ∷ rest) client chunks =
    drop_client rest client (drop_found chunk client chunks (lookup chunk chunks))

unfoldable pub remove_client_subscriptions : ℕ → MapHub → MapHub
unfolding drop_client
remove_client_subscriptions client h = record h {
  chunks = drop_client (keys (entries (lookup client h.clients))) client h.chunks;
}

unfoldable pub remove_client : ℕ → MapHub → MapHub
unfolding remove_client_subscriptions
remove_client client h =
    let h' : MapHub = remove_client_subscriptions client h in
    record h' { clients = delete client h'.clients }

unfoldable pub close_send : ℕ → MapHub → MapHub
close_send client h = record h {
  closed = if contains client h.closed then h.closed else client ∷ h.closed;
}

unfoldable pub leave : ℕ → MapHub → MapHub
unfolding remove_client close_send
leave client h = close_send client (remove_client client h)

unfoldable pub add_client : Str → ℕ → Chunks → Chunks
add_client chunk client chunks =
    insert chunk (insert client true (entries (lookup chunk chunks))) chunks

-- The loop over the requested chunks, which skips one that `next` has.
unfoldable pub subscribe : List Str → ℕ → Subscriptions → Chunks → Subscriptions × Chunks
unfolding add_client
subscribe [] client next chunks = (next, chunks)
subscribe (chunk ∷ rest) client next chunks =
    if has_value (lookup chunk next)
    then subscribe rest client next chunks
    else subscribe rest client (insert chunk true next) (add_client chunk client chunks)

unfoldable pub replace_subscriptions : ℕ → List Str → MapHub → MapHub
unfolding remove_client_subscriptions subscribe
replace_subscriptions client chunk_ids h =
    let h' : MapHub = remove_client_subscriptions client h in
    let r = subscribe chunk_ids client [] h'.chunks in
    record h' { chunks = r.1; clients = insert client r.0 h'.clients }

abbrev pub prepend : ℕ → Result (List ℕ) → Result (List ℕ)
prepend client (ok cs) = ok (client ∷ cs)
prepend client (err e) = err e

-- `accepts` says which channels take the message; a client whose channel is full leaves. To send
-- on a closed channel panics.
unfoldable pub broadcast_to : (ℕ → Bool) → List ℕ → MapHub → Result (List ℕ) × MapHub
unfolding leave
broadcast_to accepts [] h = (ok [], h)
broadcast_to accepts (client ∷ rest) h =
    if contains client h.closed
    then (err panic, h)
    else if accepts client
    then (prepend client (broadcast_to accepts rest h).0, (broadcast_to accepts rest h).1)
    else broadcast_to accepts rest (leave client h)

unfoldable pub broadcast_to_chunk : (ℕ → Bool) → Str → MapHub → Result (List ℕ) × MapHub
unfolding broadcast_to
broadcast_to_chunk accepts chunk h = broadcast_to accepts (keys (entries (lookup chunk h.chunks))) h

unfoldable pub client_subscriptions : ℕ → MapHub → List Str
client_subscriptions client h = keys (entries (lookup client h.clients))
