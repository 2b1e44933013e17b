-- ===== src/MapHub/Receivers.antt =====
-- Who gets a broadcast.
use go_lobby.Prelude.{nat_eq, ℕ, List, [], ◌∷◌, Bool, true, false}
use go_lobby.Prelude.{
  if◌then◌else◌, Result, ok, err, panic, contains, ◌≡◌, refl, sym, subst, ◌↔◌, inl, inr, ◌∈◌,
}
use go_lobby.Prelude.Text.{str_eq}
use go_lobby.MapHub.{MapHub, leave, broadcast_to, prepend}

-- Those of the given clients that accept the message.
abbrev pub AreReceivers : (ℕ → Bool) → List ℕ → List ℕ → Type 0
AreReceivers accepts clients receivers =
    (c : ℕ) → (c ∈ receivers) ↔ ((c ∈ clients) × (accepts c ≡ true))

pub with_one :
    (accepts : ℕ → Bool) (client : ℕ) (clients receivers : List ℕ)
    → accepts client ≡ true
    → AreReceivers accepts clients receivers
    → AreReceivers accepts (client ∷ clients) (client ∷ receivers)
with_one accepts client clients receivers on are c = (there, back)
  where
    there : c ∈ client ∷ receivers → (c ∈ client ∷ clients) × (accepts c ≡ true)
    there (inl e) = (inl e, subst (λ d. accepts d ≡ true) (sym e) on)
    there (inr m) = let r = (are c).0 m in (inr r.0, r.1)

    back : (c ∈ client ∷ clients) × (accepts c ≡ true) → c ∈ client ∷ receivers
    back (inl e, a) = inl e
    back (inr m, a) = inr ((are c).1 (m, a))

pub without_one :
    (accepts : ℕ → Bool) (client : ℕ) (clients receivers : List ℕ)
    → accepts client ≡ false
    → AreReceivers accepts clients receivers
    → AreReceivers accepts (client ∷ clients) receivers
without_one accepts client clients receivers off are c = (there, back)
  where
    there : c ∈ receivers → (c ∈ client ∷ clients) × (accepts c ≡ true)
    there m = let r = (are c).0 m in (inr r.0, r.1)

    back : (c ∈ client ∷ clients) × (accepts c ≡ true) → c ∈ receivers
    back (inl e, a) = absurd (contradiction e a)
      where
        contradiction : c ≡ client → accepts c ≡ true → ⊥
        contradiction e a = cc
    back (inr m, a) = (are c).1 (m, a)

pub prepended :
    (accepts : ℕ → Bool) (client : ℕ) (clients : List ℕ) (r : Result (List ℕ)) {receivers : List ℕ}
    → accepts client ≡ true
    → ((rs : List ℕ) → r ≡ ok rs → AreReceivers accepts clients rs)
    → prepend client r ≡ ok receivers
    → AreReceivers accepts (client ∷ clients) receivers
prepended accepts client clients (ok rs) {receivers} on later e =
    let same : client ∷ rs ≡ receivers = cc in
    subst (AreReceivers accepts (client ∷ clients)) same
      (with_one accepts client clients rs on (later rs refl))
prepended accepts client clients (err x) on later e = cc

pub broadcast_to-AreReceivers :
    (accepts : ℕ → Bool) (clients : List ℕ) (h : MapHub) (receivers : List ℕ)
    → (broadcast_to accepts clients h).0 ≡ ok receivers
    → AreReceivers accepts clients receivers
unfolding broadcast_to
broadcast_to-AreReceivers accepts [] h receivers e =
    let none_left : [] ≡ receivers = cc in
    subst (AreReceivers accepts []) none_left (λ c. (λ m. absurd m, λ m. m.0))
broadcast_to-AreReceivers accepts (client ∷ rest) h receivers e =
    go (contains client h.closed) (accepts client) refl e
      (λ h' rs. broadcast_to-AreReceivers accepts rest h' rs)
  where
    go :
        (b c : Bool)
        → accepts client ≡ c
        → (let r : Result (List ℕ) × MapHub =
              if b
              then (err panic, h)
              else if c
              then (prepend client (broadcast_to accepts rest h).0, (broadcast_to accepts rest h).1)
              else broadcast_to accepts rest (leave client h) in
            r.0 ≡ ok receivers)
        → ((h' : MapHub) (rs : List ℕ)
            → (broadcast_to accepts rest h').0 ≡ ok rs
            → AreReceivers accepts rest rs)
        → AreReceivers accepts (client ∷ rest) receivers
    go true c same e later = cc
    go false true same e later =
        prepended accepts client rest (broadcast_to accepts rest h).0 same (later h) e
    go false false same e later =
        without_one accepts client rest receivers same (later (leave client h) receivers e)
