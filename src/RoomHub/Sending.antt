-- ===== src/RoomHub/Sending.antt =====
-- The loop of a broadcast over the clients of a room.
use go_lobby.Prelude.{
  nat_eq, ℕ, List, [], ◌∷◌, Bool, true, false, Option, none, some, arith, ◌&&◌, ◌||◌, not,
}
use go_lobby.Prelude.{lookup, delete, contains, if◌then◌else◌, Result, ok, eqb, eqb_iff}
use go_lobby.Prelude.{◌≡◌, refl, sym, ap, ◌∙◌, subst, values, lookup-delete}
use go_lobby.Prelude.{inl, inr, Bool-cases}
use go_lobby.MapHub.{prepend}
use go_lobby.MapHub.Receivers.{AreReceivers, with_one, without_one}
use go_lobby.Workers.{is_worker}
use go_lobby.RoomHub.{Members, send_all}

abbrev pub kept : (ℕ → Bool) → Option ℕ → Option ℕ → Option ℕ
kept accepts none row = row
kept accepts (some client) row = if accepts client then row else none

-- Who stays in a room of which a message was sent.
abbrev pub staying : (ℕ → Bool) → Option ℕ → Option ℕ
staying accepts none = none
staying accepts (some client) = if accepts client then some client else none

pub kept-staying : (accepts : ℕ → Bool) (o : Option ℕ) → kept accepts o o ≡ staying accepts o
kept-staying accepts none = refl
kept-staying accepts (some client) = refl

pub staying-eq-some :
    (accepts : ℕ → Bool) (o : Option ℕ) {c : ℕ}
    → staying accepts o ≡ some c
    → (o ≡ some c) × (accepts c ≡ true)
staying-eq-some accepts none e = cc
staying-eq-some accepts (some client) {c} e = go (accepts client) refl e
  where
    go :
        (b : Bool)
        → accepts client ≡ b
        → (if b then some client else none) ≡ some c
        → (some client ≡ some c) × (accepts c ≡ true)
    go true on same = let is : client ≡ c = cc in (same, subst (λ d. accepts d ≡ true) is on)
    go false off same = cc

module _ (user_of : ℕ → ℕ) where
  -- Clients under their users, each of them once and with an open channel.
  unfoldable pub Fit : Members → List ℕ → Type 0
  Fit [] closed = Unit {0}
  Fit ((user, client) ∷ rest) closed =
      (user_of client ≡ user)
      × (contains client closed ≡ false)
      × (lookup user rest ≡ none)
      × Fit rest closed

  -- Another client's channel is closed.
  closed-Fit :
      (client : ℕ) (rest : Members) (closed : List ℕ)
      → lookup (user_of client) rest ≡ none
      → Fit rest closed
      → Fit rest (client ∷ closed)
  unfolding Fit lookup
  closed-Fit client [] closed away fit = tt
  closed-Fit client ((user, c) ∷ rest) closed away (under, open_, once, fit) = (
    under,
    elim (Bool-cases (eqb client c)) [
      | inl e ↦
          let same : user_of client ≡ user_of c = ap user_of ((eqb_iff client c).0 e) in
          ground (arith, away, same, under)
      | inr other ↦ ground (arith, other, open_)
    ],
    once,
    closed-Fit client rest closed (ground (arith, away)) fit,
  )

  -- A loop that runs through: the receivers, what is left of the row, the channels closed.
  abbrev pub Sent :
      (ℕ → Bool) → Members → Members → List ℕ → Result (List ℕ) × Members × List ℕ → Type 0
  Sent accepts rest row closed r =
      ((receivers : List ℕ) × (r.0 ≡ ok receivers) × AreReceivers accepts (values rest) receivers)
      × ((user : ℕ) → lookup user r.1 ≡ kept accepts (lookup user rest) (lookup user row))
      × ((c : ℕ)
          → contains c r.2
            ≡ (contains c closed || (is_worker (lookup (user_of c) rest) c && not (accepts c))))

  pub send_all-Sent :
      (accepts : ℕ → Bool) (rest row : Members) (closed : List ℕ)
      → Fit rest closed
      → Sent accepts rest row closed (send_all user_of accepts rest row closed)
  unfolding send_all Fit lookup
  send_all-Sent accepts [] row closed fit =
      (([], refl, λ c. (λ m. absurd m, λ m. m.0)), λ user. refl, λ c. ground arith)
  send_all-Sent accepts ((user, client) ∷ rest) row closed (under, open_, once, fit) =
      rw (send_all, open_)
        (go (accepts client) refl (send_all-Sent accepts rest row closed fit) (
          send_all-Sent accepts rest (delete (user_of client) row) (client ∷ closed) (
            closed-Fit client rest closed (subst (λ u. lookup u rest ≡ none) (sym under) once)
              fit)))
    where
      go :
          (b : Bool)
          → accepts client ≡ b
          → Sent accepts rest row closed (send_all user_of accepts rest row closed)
          → Sent accepts rest
              (delete (user_of client) row)
              (client ∷ closed)
              (send_all user_of accepts rest (delete (user_of client) row) (client ∷ closed))
          → Sent accepts ((user, client) ∷ rest) row closed (elim b [
            | true ↦
                let r = send_all user_of accepts rest row closed in (prepend client r.0, r.1, r.2)
            | false ↦ send_all user_of accepts rest (delete (user_of client) row) (client ∷ closed)
          ])
      go true on later _ = (
        (
          client ∷ later.0.0,
          ap (prepend client) later.0.1,
          with_one accepts client (values rest) later.0.0 on later.0.2,
        ),
        λ u. later.1 u ∙ ground (arith, once, on),
        λ c. later.2 c ∙ ground (arith, once, on),
      )
      go false off _ later = (
        (later.0.0, later.0.1, without_one accepts client (values rest) later.0.0 off later.0.2),
        λ u. later.1 u ∙ ground (arith, once, off, under, lookup-delete (user_of client) u row),
        λ c. later.2 c ∙ ground (arith, once, off, under),
      )
