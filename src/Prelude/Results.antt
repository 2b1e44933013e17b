-- ===== src/Prelude/Results.antt =====
-- `(value, error)` of Go as a result, and the errors of the program.
use mathlib.Core.Path.{◌≡◌, refl}
use mathlib.Core.Logic.{◌⊎◌, inl, inr}
use mathlib.Core.Bool.{Bool, true, false}

-- `stuck` is a loop of the model that ran out of fuel; `panic` is a run-time panic of Go.
pub data Error : Type 0 where
  invalid_format empty_region invalid_coord negative_coord : Error
  level_out_of_range coord_out_of_range cell_out_of_range cell_out_of_world : Error
  unsupported_region not_max_level nil_season invalid_rate : Error
  invalid_chunk_id chunk_not_found no_active_season : Error
  chunk_closed cell_already_open cell_flagged : Error
  chunk_occupied wrong_chunk no_clean_chunk not_in_match no_opponent no_winner : Error
  match_not_found room_not_found not_waiting player_not_found not_in_room : Error
  empty_request empty_mode invalid_mode no_queue_state not_cancellable create_failed : Error
  user_exists register_failed bad_credentials user_banned user_not_found : Error
  bad_algorithm bad_token : Error
  context_done external stuck panic : Error

pub data Result {ℓ} (V : Type ℓ) : Type ℓ where
  ok : V → Result V
  err : Error → Result V

infixl 5 ◌>>=◌ ◌>>◌
abbrev pub ◌>>=◌ {ℓ κ} : {V : Type ℓ} {V' : Type κ} → Result V → (V → Result V') → Result V'
err cause >>= next = err cause
ok value >>= next = next value

abbrev pub ◌>>◌ {κ} : {V' : Type κ} → Result (Unit {0}) → Result V' → Result V'
first >> next = first >>= λ _. next

-- `if bad { return …, e }`
abbrev pub refuse : Bool → Error → Result (Unit {0})
refuse true e = err e
refuse false e = ok tt

-- `if err != nil { return …, e }`: the caller's own error in place of the callee's.
abbrev pub or_error {ℓ} : {A : Type ℓ} → Result A → Error → Result A
or_error (ok a) e = ok a
or_error (err _) e = err e

-- Inversion of a successful bind, for proofs where the parts stay shut.
pub >>=-eq-ok {ℓ κ} :
    {V : Type ℓ} {V' : Type κ} (first : Result V) (next : V → Result V') {out : V'}
    → (first >>= next) ≡ ok out
    → (v : V) × (first ≡ ok v) × (next v ≡ ok out)
>>=-eq-ok (err e) next done = cc
>>=-eq-ok (ok v) next done = (v, refl, done)

pub refuse-eq-ok : (b : Bool) (e : Error) {u : Unit {0}} → refuse b e ≡ ok u → b ≡ false
refuse-eq-ok true e h = cc
refuse-eq-ok false e h = refl

pub Result-cases {ℓ} :
    {A : Type ℓ} (r : Result A) → ((a : A) × (r ≡ ok a)) ⊎ ((e : Error) × (r ≡ err e))
Result-cases (ok a) = inl (a, refl)
Result-cases (err e) = inr (e, refl)
