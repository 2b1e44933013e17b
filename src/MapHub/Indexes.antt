-- ===== src/MapHub/Indexes.antt =====
-- The two maps of the hub agree.
use go_lobby.Prelude.{
  nat_eq, ℕ, List, [], ◌∷◌, Bool, true, false, Option, none, some, ◌≡◌, refl, sym,
}
use go_lobby.Prelude.{◌∙◌, ap, ◌&&◌, lookup, insert, delete, has_value}
use go_lobby.Prelude.{if◌then◌else◌, ◌==◌, lookup-insert, lookup-delete}
use go_lobby.Prelude.Text.{Str, str_eq}
use go_lobby.MapHub.{Chunks, entries, is_empty, drop_found}
use go_lobby.MapHub.{add_client}

abbrev pub is_member : Str → ℕ → Chunks → Bool
is_member chunk client chunks = has_value (lookup client (entries (lookup chunk chunks)))

pub has_value_if_some :
    (b : Bool) (o : Option Bool)
    → has_value (if b then some true else o) ≡ (if b then true else has_value o)
has_value_if_some true o = refl
has_value_if_some false o = refl

has_value_if_none :
    (b : Bool) (o : Option Bool)
    → has_value (if b then none else o) ≡ (if b then false else has_value o)
has_value_if_none true o = refl
has_value_if_none false o = refl

abbrev in_row : ℕ → Option (List (ℕ × Bool)) → Bool
in_row c found = has_value (lookup c (entries found))

in_row-none : (c : ℕ) → in_row c none ≡ false
unfolding lookup
in_row-none c = refl

no_value_of_empty :
    (c : ℕ) (row : List (ℕ × Bool)) → is_empty row ≡ true → has_value (lookup c row) ≡ false
unfolding lookup
no_value_of_empty c [] h = refl
no_value_of_empty c (x ∷ row) h = cc

if_same : (b : Bool) → (if b then false else false) ≡ false
if_same true = refl
if_same false = refl

pub add_client_lem :
    (chunk k : Str) (client c : ℕ) (chunks : Chunks)
    → is_member k c (add_client chunk client chunks)
      ≡ (if chunk == k && (client == c) then true else is_member k c chunks)
unfolding add_client
add_client_lem chunk k client c chunks =
    rw (lookup-insert chunk k (insert client true (entries (lookup chunk chunks))) chunks)
      (go (chunk == k) refl)
  where
    go :
        (b : Bool)
        → (chunk == k) ≡ b
        → in_row c (
            if b
            then some (insert client true (entries (lookup chunk chunks)))
            else lookup k chunks)
          ≡ (if b && (client == c) then true else is_member k c chunks)
    go true same =
        ap has_value (lookup-insert client c true (entries (lookup chunk chunks)))
        ∙ has_value_if_some (client == c) (lookup c (entries (lookup chunk chunks)))
        ∙ ap (λ j. if client == c then true else is_member j c chunks)
            ((str_eq.beq_iff chunk k).0 same)
    go false other = refl

-- The row of one chunk is replaced by one that has the other clients.
row_lem :
    (chunk k : Str) (client c : ℕ) (chunks : Chunks) (found after : Option (List (ℕ × Bool)))
    (b : Bool)
    → lookup chunk chunks ≡ found
    → (chunk == k) ≡ b
    → in_row c after ≡ (if client == c then false else in_row c found)
    → in_row c (if b then after else lookup k chunks)
      ≡ (if b && (client == c) then false else is_member k c chunks)
row_lem chunk k client c chunks found after true e same h =
    h
    ∙ ap (λ v. if client == c then false else v)
        (sym (
          ap (λ j. is_member j c chunks) (sym ((str_eq.beq_iff chunk k).0 same)) ∙ ap (in_row c) e))
row_lem chunk k client c chunks found after false e other h = refl

in_row-delete :
    (client c : ℕ) (row : List (ℕ × Bool))
    → has_value (lookup c (delete client row))
      ≡ (if client == c then false else has_value (lookup c row))
in_row-delete client c row =
    ap has_value (lookup-delete client c row) ∙ has_value_if_none (client == c) (lookup c row)

pub drop_found_lem :
    (chunk k : Str) (client c : ℕ) (chunks : Chunks) (found : Option (List (ℕ × Bool)))
    → lookup chunk chunks ≡ found
    → is_member k c (drop_found chunk client chunks found)
      ≡ (if chunk == k && (client == c) then false else is_member k c chunks)
unfolding drop_found
drop_found_lem chunk k client c chunks none e = go (chunk == k) refl
  where
    go :
        (b : Bool)
        → (chunk == k) ≡ b
        → is_member k c chunks ≡ (if b && (client == c) then false else is_member k c chunks)
    go true same =
        let gone : is_member k c chunks ≡ false =
          ap (λ j. is_member j c chunks) (sym ((str_eq.beq_iff chunk k).0 same))
          ∙ ap (in_row c) e
          ∙ in_row-none c in
        rw gone (sym (if_same (client == c)))
    go false other = refl
drop_found_lem chunk k client c chunks (some row) e = go (is_empty (delete client row)) refl
  where
    go :
        (b : Bool)
        → is_empty (delete client row) ≡ b
        → is_member k c (if b then delete chunk chunks else insert chunk (delete client row) chunks)
          ≡ (if chunk == k && (client == c) then false else is_member k c chunks)
    go true h = rw (lookup-delete chunk k chunks) (
        row_lem chunk k client c chunks (some row) none (chunk == k) e refl (
          in_row-none c
          ∙ sym (no_value_of_empty c (delete client row) h)
          ∙ in_row-delete client c row))
    go false h = rw (lookup-insert chunk k (delete client row) chunks) (
        row_lem chunk k client c chunks (some row) (some (delete client row)) (chunk == k) e refl
          (in_row-delete client c row))
