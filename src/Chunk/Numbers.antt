-- ===== src/Chunk/Numbers.antt =====
-- What internal/model/chunk.go uses of Go's strings, strconv and fmt, and that a decimal number
-- is read back as it was written.
use go_lobby.Prelude.{ℕ, zero, suc, ◌+◌, ◌-◌, ◌*◌, ◌/◌, ◌%◌, ◌^◌, ◌≤◌, ◌<◌, ◌≡◌, refl, ◌∙◌}
use go_lobby.Prelude.{List, [], ◌∷◌, ◌&&◌, Option, none, some, arith, All}
use go_lobby.Prelude.{Result, ok, err, invalid_coord, if◌then◌else◌, ltb, leb, eqb, Bool-cases}
use go_lobby.Prelude.{◌≢◌, inl, inr}
use go_lobby.Prelude.Int.{ℤ, pos, negsuc, sub_ℕ, two63}
use go_lobby.Prelude.Text.{Str}
use native.Mathlib.Nat.{pow-suc}

unfoldable pub push_head : ℕ → List Str → List Str
push_head c [] = (c ∷ []) ∷ []
push_head c (s ∷ rest) = (c ∷ s) ∷ rest

-- `strings.Split(s, string(sep))`
unfoldable pub split : ℕ → Str → List Str
unfolding push_head
split sep [] = [] ∷ []
split sep (c ∷ s) = let rest = split sep s in if eqb c sep then [] ∷ rest else push_head c rest

-- The decimal digits of a number, behind the value so far.
unfoldable pub digits_value : Str → ℕ → Option ℕ
digits_value [] acc = some acc
digits_value (c ∷ s) acc =
    let rest = digits_value s (acc * 10 + (c - b'0')) in
    if leb b'0' c && leb c b'9' then rest else none

-- At least one digit, and a value below the bound.
bounded_value : ℕ → Str → Option ℕ
unfolding digits_value
bounded_value bound [] = none
bounded_value bound (c ∷ s) = elim (digits_value (c ∷ s) 0) [
  | none ↦ none
  | some n ↦ if ltb n bound then some n else none
]

abbrev as_pos : Option ℕ → Result ℤ
as_pos none = err invalid_coord
as_pos (some n) = ok (pos n)

abbrev as_neg : Option ℕ → Result ℤ
as_neg none = err invalid_coord
as_neg (some n) = ok (sub_ℕ 0 n)

-- `strconv.Atoi`: an optional sign, digits, and a value that an `int` holds.
unfoldable pub atoi : Str → Result ℤ
unfolding bounded_value
atoi [] = err invalid_coord
atoi (c ∷ s) =
    if eqb c b'-'
    then as_neg (bounded_value (suc two63) s)
    else if eqb c b'+'
    then as_pos (bounded_value two63 s)
    else as_pos (bounded_value two63 (c ∷ s))

-- The digits of `n` before `acc`; `fuel` digits at most.
print_digits : ℕ → ℕ → Str → Str
print_digits zero n acc = acc
print_digits (suc fuel) n acc =
    let rest = print_digits fuel (n / 10) ((b'0' + n % 10) ∷ acc) in
    if ltb n 10 then (b'0' + n) ∷ acc else rest

-- `%d` of an `int`: twenty digits are more than 2 ^ 64 needs.
unfoldable pub itoa : ℤ → Str
unfolding print_digits
itoa (pos n) = print_digits 20 n []
itoa (negsuc n) = b'-' ∷ print_digits 20 (suc n) []

abbrev pub IsDigit : ℕ → Type 0
IsDigit c = (b'0' ≤ c) × (c ≤ b'9')

print_digits-IsDigit :
    (fuel n : ℕ) (acc : Str) → All IsDigit acc → All IsDigit (print_digits fuel n acc)
unfolding print_digits
print_digits-IsDigit zero n acc h = h
print_digits-IsDigit (suc fuel) n acc h = elim (Bool-cases (ltb n 10)) [
  | inl small ↦ rw small (ground arith, h)
  | inr large ↦ rw large (print_digits-IsDigit fuel (n / 10) _ (omega arith, h))
]

digits_value-print_digits :
    (fuel n : ℕ) (acc : Str)
    → n < 10 ^ fuel
    → digits_value (print_digits fuel n acc) 0 ≡ digits_value acc n
unfolding print_digits digits_value
digits_value-print_digits zero n acc h = let e : n ≡ 0 = omega arith in rw e
digits_value-print_digits (suc fuel) n acc h = elim (Bool-cases (ltb n 10)) [
  | inl small ↦ rw small (ground arith)
  | inr large ↦
      rw large
        (digits_value-print_digits fuel (n / 10) _ (omega (arith, pow-suc 10 fuel)) ∙ ground arith)
]

print_digits-ne-nil : (fuel n c : ℕ) (acc : Str) → print_digits fuel n (c ∷ acc) ≢ []
unfolding print_digits
print_digits-ne-nil zero n c acc = λ e. cc
print_digits-ne-nil (suc fuel) n c acc = elim (Bool-cases (ltb n 10)) [
  | inl small ↦ rw small (λ e. cc)
  | inr large ↦ rw large (print_digits-ne-nil fuel (n / 10) _ (c ∷ acc))
]

print_digits_some : (fuel n : ℕ) → print_digits (suc fuel) n [] ≢ []
unfolding print_digits
print_digits_some fuel n = elim (Bool-cases (ltb n 10)) [
  | inl small ↦ rw small (λ e. cc)
  | inr large ↦ rw large (print_digits-ne-nil fuel (n / 10) _ [])
]

atoi_digits :
    (s : Str) (n : ℕ)
    → s ≢ []
    → All IsDigit s
    → digits_value s 0 ≡ some n
    → n < two63
    → atoi s ≡ ok (pos n)
unfolding atoi
atoi_digits [] n ne d e h = absurd (ne refl)
atoi_digits (c ∷ s) n ne d e h = ground arith

-- An `int` that is not negative is read back from its decimal form.
pub atoi-itoa : (n : ℕ) → n < two63 → atoi (itoa (pos n)) ≡ ok (pos n)
unfolding itoa
atoi-itoa n h =
    atoi_digits (print_digits 20 n []) n (print_digits_some 19 n) (print_digits-IsDigit 20 n [] tt)
      (digits_value-print_digits 20 n [] (omega arith) ∙ unfold digits_value in refl) h

pub itoa-IsDigit : (n : ℕ) → All IsDigit (itoa (pos n))
unfolding itoa
itoa-IsDigit n = print_digits-IsDigit 20 n [] tt

bounded_value-lt : (bound : ℕ) (s : Str) (n : ℕ) → bounded_value bound s ≡ some n → n < bound
unfolding bounded_value
bounded_value-lt bound [] n e = cc
bounded_value-lt bound (c ∷ s) n e = ground arith

as_pos-inv : (o : Option ℕ) (n : ℕ) → as_pos o ≡ ok (pos n) → o ≡ some n
as_pos-inv o n e = ground arith

as_neg-inv : (o : Option ℕ) (n : ℕ) → as_neg o ≡ ok (pos n) → n ≡ 0
as_neg-inv none n e = cc
as_neg-inv (some m) n e = ground arith

-- What is read as an `int` and is not negative is below 2 ^ 63.
pub atoi-lt : (s : Str) (n : ℕ) → atoi s ≡ ok (pos n) → n < two63
unfolding atoi
atoi-lt [] n e = cc
atoi-lt (c ∷ s) n e = elim (Bool-cases (eqb c b'-')) [
  | inl minus ↦ omega (arith, as_neg-inv _ n (rw minus at e))
  | inr minus' ↦ elim (Bool-cases (eqb c b'+')) [
    | inl plus ↦ bounded_value-lt two63 s n (as_pos-inv _ n (rw (minus', plus) at e))
    | inr plus' ↦ bounded_value-lt two63 (c ∷ s) n (as_pos-inv _ n (rw (minus', plus') at e))
  ]
]
