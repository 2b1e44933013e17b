-- ===== src/MapHub/Subscribe.antt =====
-- What removing and adding a client's subscriptions does to the chunks.
use go_lobby.Prelude.{nat_eq, ℕ, List, [], ◌∷◌, Bool, true, false, Option, some, ◌≡◌, refl, sym}
use go_lobby.Prelude.{◌∙◌, ap, ◌&&◌, ◌||◌, lookup, insert, keys, has_value, contains}
use go_lobby.Prelude.{if◌then◌else◌, ◌==◌, ==-refl, arith, lookup-insert, eqb_iff}
use go_lobby.Prelude.Text.{Str, str_eq}
use go_lobby.MapHub.{Chunks, Subscriptions, MapHub, entries, drop_client, drop_found}
use go_lobby.MapHub.{remove_client_subscriptions, add_client}
use go_lobby.MapHub.{subscribe}
use go_lobby.MapHub.Indexes.{is_member, add_client_lem, drop_found_lem, has_value_if_some}

abbrev pub is_subscribed : ℕ → Str → List (ℕ × Subscriptions) → Bool
is_subscribed c k clients = has_value (lookup k (entries (lookup c clients)))

-- A client stands under a chunk exactly when the chunk stands under the client.
abbrev pub Agree : MapHub → Type 0
Agree h = (k : Str) (c : ℕ) → is_member k c h.chunks ≡ is_subscribed c k h.clients

dropped_twice :
    (p q r m : Bool)
    → (if q && r then false else (if p && r then false else m))
      ≡ (if (p || q) && r then false else m)
dropped_twice p q r m = ground arith

drop_client_lem :
    (ks : List Str) (client c : ℕ) (k : Str) (chunks : Chunks)
    → is_member k c (drop_client ks client chunks)
      ≡ (if contains k ks && (client == c) then false else is_member k c chunks)
unfolding drop_client
drop_client_lem [] client c k chunks = refl
drop_client_lem (x ∷ ks) client c k chunks =
    drop_client_lem ks client c k (drop_found x client chunks (lookup x chunks))
    ∙ ap (λ v. if contains k ks && (client == c) then false else v)
        (drop_found_lem x k client c chunks (lookup x chunks) refl)
    ∙ dropped_twice (x == k) (contains k ks) (client == c) (is_member k c chunks)

contains-keys : (k : Str) (m : Subscriptions) → contains k (keys m) ≡ has_value (lookup k m)
unfolding lookup
contains-keys k [] = refl
contains-keys k ((j, v) ∷ m) = ground (arith, contains-keys k m)

same_gone : (b : Bool) → (if b && true then false else b) ≡ false
same_gone true = refl
same_gone false = refl

not_gone : (b m : Bool) → (if b && false then false else m) ≡ m
not_gone true m = refl
not_gone false m = refl

pub removed_lem :
    (client c : ℕ) (k : Str) (h : MapHub)
    → Agree h
    → is_member k c (remove_client_subscriptions client h).chunks
      ≡ (if client == c then false else is_member k c h.chunks)
unfolding remove_client_subscriptions
removed_lem client c k h agree =
    drop_client_lem (keys (entries (lookup client h.clients))) client c k h.chunks
    ∙ rw (contains-keys k (entries (lookup client h.clients))) (go (client == c) refl)
  where
    go :
        (b : Bool)
        → (client == c) ≡ b
        → (if is_subscribed client k h.clients && b then false else is_member k c h.chunks)
          ≡ (if b then false else is_member k c h.chunks)
    go true same =
        rw (agree k c, (eqb_iff client c).0 same) (same_gone (is_subscribed c k h.clients))
    go false other = not_gone (is_subscribed client k h.clients) (is_member k c h.chunks)

-- The maps agree for one client, from what it has requested so far.
abbrev pub AgreesWith : ℕ → Subscriptions → Chunks → Type 0
AgreesWith client next chunks = (k : Str) → is_member k client chunks ≡ has_value (lookup k next)

added_agrees :
    (x : Str) (client : ℕ) (next : Subscriptions) (chunks : Chunks)
    → AgreesWith client next chunks
    → AgreesWith client (insert x true next) (add_client x client chunks)
added_agrees x client next chunks h k =
    add_client_lem x k client client chunks
    ∙ rw (==-refl client) (go (x == k))
    ∙ sym (ap has_value (lookup-insert x k true next) ∙ has_value_if_some (x == k) (lookup k next))
  where
    go :
        (b : Bool)
        → (if b && true then true else is_member k client chunks)
          ≡ (if b then true else has_value (lookup k next))
    go true = refl
    go false = h k

pub if_either :
    {X : Type 0} (P : X → Type 0) (b : Bool) (x y : X) → P x → P y → P (if b then x else y)
if_either P true x y p q = p
if_either P false x y p q = q

pub subscribe_lem :
    (ks : List Str) (client : ℕ) (next : Subscriptions) (chunks : Chunks)
    → AgreesWith client next chunks
    → AgreesWith client (subscribe ks client next chunks).0 (subscribe ks client next chunks).1
unfolding subscribe
subscribe_lem [] client next chunks h = h
subscribe_lem (x ∷ ks) client next chunks h =
    if_either (λ (r : Subscriptions × Chunks). AgreesWith client r.0 r.1)
      (has_value (lookup x next)) _ _ (subscribe_lem ks client next chunks h)
      (subscribe_lem ks client (insert x true next) (add_client x client chunks)
        (added_agrees x client next chunks h))

pub subscribe_others :
    (ks : List Str) (client c : ℕ) (k : Str) (next : Subscriptions) (chunks : Chunks)
    → (client == c) ≡ false
    → is_member k c (subscribe ks client next chunks).1 ≡ is_member k c chunks
unfolding subscribe
subscribe_others [] client c k next chunks other = refl
subscribe_others (x ∷ ks) client c k next chunks other =
    if_either (λ (r : Subscriptions × Chunks). is_member k c r.1 ≡ is_member k c chunks)
      (has_value (lookup x next)) _ _ (subscribe_others ks client c k next chunks other)
      (subscribe_others ks client c k (insert x true next) (add_client x client chunks) other
        ∙ add_client_lem x k client c chunks
        ∙ rw other (not_added (x == k) (is_member k c chunks)))
  where
    not_added : (b m : Bool) → (if b && false then true else m) ≡ m
    not_added true m = refl
    not_added false m = refl

added :
    (p q : Bool) (o : Option Bool)
    → (q || has_value (if p then some true else o)) ≡ ((p || q) || has_value o)
added true true o = refl
added true false o = refl
added false q o = refl

or_true : (q : Bool) → (q || true) ≡ true
or_true true = refl
or_true false = refl

-- What is subscribed to in the end is what was before and what is requested.
pub subscribe_requested :
    (ks : List Str) (client : ℕ) (k : Str) (next : Subscriptions) (chunks : Chunks)
    → has_value (lookup k (subscribe ks client next chunks).0)
      ≡ (contains k ks || has_value (lookup k next))
unfolding subscribe
subscribe_requested [] client k next chunks = refl
subscribe_requested (x ∷ ks) client k next chunks =
    go (has_value (lookup x next)) refl (subscribe_requested ks client k next chunks)
      (subscribe_requested ks client k (insert x true next) (add_client x client chunks))
  where
    go :
        (b : Bool)
        → has_value (lookup x next) ≡ b
        → has_value (lookup k (subscribe ks client next chunks).0)
          ≡ (contains k ks || has_value (lookup k next))
        → has_value
            (lookup k (subscribe ks client (insert x true next) (add_client x client chunks)).0)
          ≡ (contains k ks || has_value (lookup k (insert x true next)))
        → has_value (
            lookup k
              (if b
                then subscribe ks client next chunks
                else subscribe ks client (insert x true next) (add_client x client chunks)).0)
          ≡ ((x == k || contains k ks) || has_value (lookup k next))
    go true old before after = before ∙ known (x == k) refl
      where
        known :
            (same : Bool)
            → (x == k) ≡ same
            → (contains k ks || has_value (lookup k next))
              ≡ ((same || contains k ks) || has_value (lookup k next))
        known true same =
            rw (ap (λ j. has_value (lookup j next)) (sym ((str_eq.beq_iff x k).0 same)) ∙ old)
              (or_true (contains k ks))
        known false same = refl
    go false new before after =
        after ∙ rw (lookup-insert x k true next) (added (x == k) (contains k ks) (lookup k next))
