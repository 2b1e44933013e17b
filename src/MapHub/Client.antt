-- ===== src/MapHub/Client.antt =====
-- internal/ws/map_client.go: what a client of the map asks for, and what it is answered on its own
-- channel. Reading the socket and decoding JSON are left out, and an answer that finds its channel
-- full waits.
use go_lobby.Prelude.{
  nat_eq, ℕ, List, [], ◌∷◌, ◌++◌, all, Bool, true, false, Option, none, some, Result, ok, err,
}
use go_lobby.Prelude.{contains, if◌then◌else◌, panic, ◌||◌, ◌==◌, ◌≡◌, refl, sym, ap, ◌∙◌, arith}
use go_lobby.Prelude.Text.{Str, codes, str_eq}
use go_lobby.Prelude.Effect.{M}
use go_lobby.Chunk.{parse_chunk_id, ensure_playable_chunk}
use go_lobby.Prelude.{has_value, ◌&&◌}
use go_lobby.MapHub.{MapHub, replace_subscriptions}
use go_lobby.MapHub.Subscribe.{is_subscribed}
use go_lobby.MapHub.Agree.{replace_subscriptions_lem}

-- A decoded message: its type, and the chunks of its data if they decode.
pub record ClientMessage : Type 0 where
  pub message_type : Str
  pub chunk_ids : Option (List Str)

pub data Answer : Type 0 where
  pong bad_json unknown_type bad_subscription bad_chunk : Answer
  subscribed_chunks : List Str → Answer

-- To send on a channel that the hub closed panics.
unfoldable pub send_json : ℕ → Answer → M MapHub Answer
send_json client answer h = if contains client h.closed then (err panic, h) else (ok answer, h)

abbrev is_ok {ℓ} : {A : Type ℓ} → Result A → Bool
is_ok (ok a) = true
is_ok (err e) = false

-- A text that parses to a playable chunk.
unfoldable pub is_playable_text : Str → Bool
is_playable_text raw = elim (parse_chunk_id raw) [
  | err e ↦ false
  | ok id ↦ is_ok (ensure_playable_chunk id)
]

-- The loop: the chunks in the order of their first mention, after those seen so far, or none if one
-- is not playable.
unfoldable pub chunks_of_request : List Str → List Str → Option (List Str)
chunks_of_request [] seen = some seen
chunks_of_request (raw ∷ rest) seen =
    let later = chunks_of_request rest (if contains raw seen then seen else seen ++ (raw ∷ [])) in
    if is_playable_text raw then later else none

unfoldable pub subscribe_found : ℕ → Option (List Str) → M MapHub Answer
unfolding send_json
subscribe_found client none h = send_json client bad_chunk h
subscribe_found client (some ids) h =
    send_json client (subscribed_chunks ids) (replace_subscriptions client ids h)

unfoldable pub handle_subscribe_chunks : ℕ → Option (List Str) → M MapHub Answer
unfolding send_json subscribe_found chunks_of_request
handle_subscribe_chunks client none h = send_json client bad_subscription h
handle_subscribe_chunks client (some raws) h = subscribe_found client (chunks_of_request raws []) h

-- One round of the loop of `ReadPump`; without a message the text was no JSON.
unfoldable pub handle_message : ℕ → Option ClientMessage → M MapHub Answer
unfolding send_json handle_subscribe_chunks
handle_message client none h = send_json client bad_json h
handle_message client (some m) h =
    if m.message_type == codes "ping"
    then send_json client pong h
    else if m.message_type == codes "subscribe_chunks"
    then handle_subscribe_chunks client m.chunk_ids h
    else send_json client unknown_type h

abbrev holds : Str → Option (List Str) → Bool
holds k none = false
holds k (some ids) = contains k ids

contains-append :
    (k raw : Str) (xs : List Str) → contains k (xs ++ (raw ∷ [])) ≡ (contains k xs || (raw == k))
contains-append k raw [] = ground arith
contains-append k raw (x ∷ xs) = ground (arith, contains-append k raw xs)

-- A chunk that was seen is not added again.
contains-grown :
    (k raw : Str) (seen : List Str)
    → contains k (if contains raw seen then seen else seen ++ (raw ∷ []))
      ≡ (contains k seen || (raw == k))
contains-grown k raw seen = go (contains raw seen) refl (raw == k) refl
  where
    go :
        (b : Bool)
        → contains raw seen ≡ b
        → (c : Bool) → (raw == k) ≡ c
        → contains k (if b then seen else seen ++ (raw ∷ [])) ≡ (contains k seen || (raw == k))
    go false new c same = contains-append k raw seen
    go true old false other = ground (arith, other)
    go true old true same =
        let there : contains k seen ≡ true =
          ap (λ r. contains r seen) (sym ((str_eq.beq_iff raw k).0 same)) ∙ old in
        ground (arith, there)

-- What the loop has when it ends.
chunks_of_request-contains :
    (raws seen : List Str) (k : Str)
    → holds k (chunks_of_request raws seen)
      ≡ (if all is_playable_text raws then contains k seen || contains k raws else false)
unfolding chunks_of_request
chunks_of_request-contains [] seen k = ground arith
chunks_of_request-contains (raw ∷ rest) seen k =
    go (is_playable_text raw) (if contains raw seen then seen else seen ++ (raw ∷ []))
      (contains-grown k raw seen) (λ seen'. chunks_of_request-contains rest seen' k)
  where
    go :
        (b : Bool) (seen' : List Str)
        → contains k seen' ≡ (contains k seen || (raw == k))
        → ((s : List Str)
            → holds k (chunks_of_request rest s)
              ≡ (if all is_playable_text rest then contains k s || contains k rest else false))
        → holds k (if b then chunks_of_request rest seen' else none) ≡ (
            if b && all is_playable_text rest
            then contains k seen || (raw == k || contains k rest)
            else false)
    go false seen' grown later = refl
    go true seen' grown later = later seen' ∙ ground (arith, grown)

chunks_of_request-has_value :
    (raws seen : List Str) → has_value (chunks_of_request raws seen) ≡ all is_playable_text raws
unfolding chunks_of_request
chunks_of_request-has_value [] seen = refl
chunks_of_request-has_value (raw ∷ rest) seen =
    go (is_playable_text raw) (if contains raw seen then seen else seen ++ (raw ∷ []))
      (λ seen'. chunks_of_request-has_value rest seen')
  where
    go :
        (b : Bool) (seen' : List Str)
        → ((s : List Str) → has_value (chunks_of_request rest s) ≡ all is_playable_text rest)
        → has_value (if b then chunks_of_request rest seen' else none)
          ≡ (b && all is_playable_text rest)
    go false seen' later = refl
    go true seen' later = later seen'

sent_kept : (client : ℕ) (a : Answer) (h : MapHub) → (send_json client a h).1 ≡ h
unfolding send_json
sent_kept client a h = ground arith

-- After a request for chunks a client is subscribed to exactly the texts it asked for if each of
-- them parses to a playable chunk, and otherwise to what it had before.
pub handle_subscribe_chunks_lem :
    (client : ℕ) (raws : List Str) (k : Str) (h : MapHub)
    → is_subscribed client k (handle_subscribe_chunks client (some raws) h).1.clients
      ≡ (if all is_playable_text raws then contains k raws else is_subscribed client k h.clients)
unfolding handle_subscribe_chunks subscribe_found
handle_subscribe_chunks_lem client raws k h =
    go (chunks_of_request raws []) (all is_playable_text raws) (chunks_of_request-has_value raws [])
      (chunks_of_request-contains raws [] k)
  where
    go :
        (o : Option (List Str)) (b : Bool)
        → has_value o ≡ b
        → holds k o ≡ (if b then contains k raws else false)
        → is_subscribed client k (subscribe_found client o h).1.clients
          ≡ (if b then contains k raws else is_subscribed client k h.clients)
    go none true e held = cc
    go none false e held =
        ap (λ (g : MapHub). is_subscribed client k g.clients) (sent_kept client bad_chunk h)
    go (some ids) false e held = cc
    go (some ids) true e held =
        ap (λ (g : MapHub). is_subscribed client k g.clients)
          (sent_kept client (subscribed_chunks ids) (replace_subscriptions client ids h))
        ∙ replace_subscriptions_lem client ids k h
        ∙ held
