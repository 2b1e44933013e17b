-- ===== src/Prelude/Text.antt =====
-- A Go string as the list of its bytes.
use Prim.Native.Nat.{ℕ}
use Prim.Native.Char.{code}
use Prim.Native.String.{String}
use mathlib.Core.Path.{◌≡◌, refl}
use mathlib.Core.Logic.{◌↔◌}
use mathlib.Core.Bool.{Bool, true, false, ◌&&◌}
use mathlib.Core.List.{List, [], ◌∷◌, ◌++◌}
use native.Mathlib.Omega.{arith}
use go_lobby.Prelude.Tests.{Eq, eqb}

abbrev pub Str : Type 0
Str = List ℕ

-- The bytes of an ASCII literal.
abbrev pub codes : String → Str
codes String.[] = []
codes (String.◌∷◌ ch text) = code ch ∷ codes text

unfoldable pub str_beq : Str → Str → Bool
str_beq [] [] = true
str_beq [] (y ∷ t) = false
str_beq (x ∷ s) [] = false
str_beq (x ∷ s) (y ∷ t) = eqb x y && str_beq s t

pub str_beq_iff : (s t : Str) → (str_beq s t ≡ true) ↔ (s ≡ t)
unfolding str_beq
str_beq_iff [] [] = ground arith
str_beq_iff [] (y ∷ t) = ground arith
str_beq_iff (x ∷ s) [] = ground arith
str_beq_iff (x ∷ s) (y ∷ t) = ground (arith, str_beq_iff s t)

instance abbrev pub str_eq : Eq Str
str_eq = record { beq = str_beq; beq_iff = str_beq_iff }

-- Texts with one beginning differ in what follows.
pub str_beq-append : (p s t : Str) → str_beq (p ++ s) (p ++ t) ≡ str_beq s t
unfolding str_beq
str_beq-append [] s t = refl
str_beq-append (x ∷ p) s t = ground (arith, str_beq-append p s t)
