-- ===== src/MapHub/Agree.antt =====
-- The two maps of the hub agree in every reachable state.
use go_lobby.Prelude.{
  nat_eq, ℕ, List, [], ◌∷◌, Bool, true, false, Option, none, some, Result, ◌≡◌, refl, sym,
}
use go_lobby.Prelude.{◌∙◌, ap, ◌||◌, lookup, keys, has_value, contains}
use go_lobby.Prelude.{if◌then◌else◌, ◌==◌, ==-refl, lookup-insert, lookup-delete, eqb_iff}
use go_lobby.Prelude.Text.{Str, str_eq}
use go_lobby.MapHub.{Chunks, Subscriptions, MapHub, entries, new_map_hub}
use go_lobby.MapHub.{remove_client_subscriptions, remove_client, leave, close_send}
use go_lobby.MapHub.{
  subscribe, replace_subscriptions, join_map, join_found, broadcast_to, broadcast_to_chunk,
}
use go_lobby.MapHub.Indexes.{is_member}
use go_lobby.MapHub.Subscribe.{is_subscribed, Agree, AgreesWith, if_either, removed_lem}
use go_lobby.MapHub.Subscribe.{subscribe_lem, subscribe_others, subscribe_requested}

nothing_subscribed : (k : Str) → has_value (lookup k (entries {A = Str × Bool} none)) ≡ false
unfolding lookup
nothing_subscribed k = refl

join_map-Agree : (client : ℕ) (h : MapHub) → Agree h → Agree (join_map client h)
unfolding join_map join_found
join_map-Agree client h agree = go (lookup client h.clients) refl
  where
    joined :
        (k : Str) (c : ℕ) (b : Bool)
        → lookup client h.clients ≡ none
        → (client == c) ≡ b
        → has_value (lookup k (entries (if b then some [] else lookup c h.clients)))
          ≡ is_subscribed c k h.clients
    joined k c true e same = sym (
        ap (λ j. is_subscribed j k h.clients) (sym ((eqb_iff client c).0 same))
        ∙ ap (λ o. has_value (lookup k (entries o))) e)
    joined k c false e other = refl

    go :
        (found : Option Subscriptions)
        → lookup client h.clients ≡ found
        → Agree (join_found client h found)
    go none e k c =
        agree k c
        ∙ sym (
            ap (λ o. has_value (lookup k (entries o))) (lookup-insert client c [] h.clients)
            ∙ joined k c (client == c) e refl)
    go (some m) e k c = agree k c

remove_client-Agree : (client : ℕ) (h : MapHub) → Agree h → Agree (remove_client client h)
unfolding remove_client remove_client_subscriptions
remove_client-Agree client h agree k c =
    removed_lem client c k h agree
    ∙ rw (lookup-delete client c h.clients, agree k c) (go (client == c))
  where
    go :
        (b : Bool)
        → (if b then false else is_subscribed c k h.clients)
          ≡ has_value (lookup k (entries (if b then none else lookup c h.clients)))
    go true = sym (nothing_subscribed k)
    go false = refl

module _ (client : ℕ) (ids : List Str) (h : MapHub) (agree : Agree h) where
  removed : Chunks
  removed = (remove_client_subscriptions client h).chunks

  fresh : AgreesWith client [] removed
  unfolding removed
  fresh k = removed_lem client client k h agree ∙ rw (==-refl client) (sym (nothing_subscribed k))

  replaced :
      (k : Str) (c : ℕ) (b : Bool)
      → (client == c) ≡ b
      → is_member k c (subscribe ids client [] removed).1
        ≡ has_value (
            lookup k (
              entries (if b then some (subscribe ids client [] removed).0 else lookup c h.clients)))
  unfolding removed
  replaced k c true same =
      ap (λ j. is_member k j (subscribe ids client [] removed).1) (sym ((eqb_iff client c).0 same))
      ∙ subscribe_lem ids client [] removed fresh k
  replaced k c false other =
      subscribe_others ids client c k [] removed other
      ∙ removed_lem client c k h agree
      ∙ rw other (agree k c)

  replace_subscriptions-Agree : Agree (replace_subscriptions client ids h)
  unfolding replace_subscriptions remove_client_subscriptions removed
  replace_subscriptions-Agree k c =
      replaced k c (client == c) refl
      ∙ sym (
          ap (λ o. has_value (lookup k (entries o)))
            (lookup-insert client c (subscribe ids client [] removed).0 h.clients))

broadcast_to-Agree :
    (accepts : ℕ → Bool) (clients : List ℕ) (h : MapHub)
    → Agree h
    → Agree (broadcast_to accepts clients h).1
unfolding broadcast_to leave close_send
broadcast_to-Agree accepts [] h agree = agree
broadcast_to-Agree accepts (client ∷ rest) h agree =
    let P : Result (List ℕ) × MapHub → Type 0 = λ r. Agree r.1 in
    if_either P (contains client h.closed) _ _ agree (
      if_either P (accepts client) _ _ (broadcast_to-Agree accepts rest h agree)
        (broadcast_to-Agree accepts rest (leave client h) (remove_client-Agree client h agree)))

-- The states that the operations lead to, in any order, from the empty hub.
pub data Reach : MapHub → Type 0 where
  start : Reach new_map_hub
  join : {h : MapHub} (client : ℕ) → Reach h → Reach (join_map client h)
  left : {h : MapHub} (client : ℕ) → Reach h → Reach (leave client h)
  replace :
      {h : MapHub} (client : ℕ) (ids : List Str)
      → Reach h
      → Reach (replace_subscriptions client ids h)
  broadcast :
      {h : MapHub} (accepts : ℕ → Bool) (chunk : Str)
      → Reach h
      → Reach (broadcast_to_chunk accepts chunk h).1

-- In every reachable state a client stands under a chunk exactly when the chunk stands under the
-- client.
pub Reach-Agree : {h : MapHub} → Reach h → Agree h
unfolding new_map_hub leave close_send broadcast_to_chunk lookup
Reach-Agree start = λ k c. refl
Reach-Agree (join {h = h} client r) = join_map-Agree client h (Reach-Agree r)
Reach-Agree (left {h = h} client r) = remove_client-Agree client h (Reach-Agree r)
Reach-Agree (replace {h = h} client ids r) =
    replace_subscriptions-Agree client ids h (Reach-Agree r)
Reach-Agree (broadcast {h = h} accepts chunk r) =
    broadcast_to-Agree accepts (keys (entries (lookup chunk h.chunks))) h (Reach-Agree r)

or_none : (q : Bool) → (q || false) ≡ q
or_none true = refl
or_none false = refl

-- After a subscription the client has exactly the chunks it asked for.
pub replace_subscriptions_lem :
    (client : ℕ) (ids : List Str) (k : Str) (h : MapHub)
    → is_subscribed client k (replace_subscriptions client ids h).clients ≡ contains k ids
unfolding replace_subscriptions remove_client_subscriptions lookup
replace_subscriptions_lem client ids k h =
    let chunks : Chunks = (remove_client_subscriptions client h).chunks in
    ap (λ o. has_value (lookup k (entries o)))
      (lookup-insert client client (subscribe ids client [] chunks).0 h.clients)
    ∙ rw (==-refl client) (subscribe_requested ids client k [] chunks)
    ∙ or_none (contains k ids)
