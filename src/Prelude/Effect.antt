-- ===== src/Prelude/Effect.antt =====
-- Code that calls stores and clocks: it passes a world on, and keeps the changes made before an
-- error. The rules at the end carry an invariant of the world through such code.
use mathlib.Core.Path.{◌≡◌, refl}
use mathlib.Core.Bool.{Bool, true, false}
use go_lobby.Prelude.Results.{Error, Result, ok, err}

abbrev pub M : Type 0 → Type 0 → Type 0
M W A = W → Result A × W

abbrev pub Done : Type 0
Done = Unit {0}

abbrev pub Ensures : {A : Type 0} → (A → Type 0) → Result A → Type 0
Ensures Q (ok a) = Q a
Ensures Q (err e) = Unit {0}

module _ {W : Type 0} where
  abbrev pub pure : {A : Type 0} → A → M W A
  pure a w = (ok a, w)

  abbrev pub fail : {A : Type 0} → Error → M W A
  fail e w = (err e, w)

  abbrev pub and_then : {A B : Type 0} → Result A × W → (A → M W B) → Result B × W
  and_then (ok a, w) f = f a w
  and_then (err e, w) f = (err e, w)

  -- Inversion of a successful bind.
  pub and_then-eq-ok :
      {A B : Type 0} (r : Result A × W) (f : A → M W B) {b : B} {w : W}
      → and_then r f ≡ (ok b, w)
      → (a : A) × (w' : W) × (r ≡ (ok a, w')) × (f a w' ≡ (ok b, w))
  and_then-eq-ok (ok a, w') f e = (a, w', refl, e)
  and_then-eq-ok (err e', w') f e = cc

  infixl 5 ◌>>=◌ ◌>>◌
  abbrev pub ◌>>=◌ : {A B : Type 0} → M W A → (A → M W B) → M W B
  ◌>>=◌ m f w = and_then (m w) f

  abbrev pub ◌>>◌ : {B : Type 0} → M W Done → M W B → M W B
  m >> k = m >>= λ _. k

  -- A computation that calls nothing.
  abbrev pub lift : {A : Type 0} → Result A → M W A
  lift (ok a) w = (ok a, w)
  lift (err e) w = (err e, w)

  -- `if bad { return …, e }`
  abbrev pub stop_if : Bool → Error → M W Done
  stop_if true e w = (err e, w)
  stop_if false e w = (ok tt, w)

  -- `_ = f()`: the error is dropped.
  abbrev pub ignore : {A : Type 0} → M W A → M W Done
  ignore m w = (ok tt, (m w).1)

  -- `if err != nil { return …, e }`
  abbrev relabel : {A : Type 0} → Error → Result A × W → Result A × W
  relabel e (ok a, w) = (ok a, w)
  relabel e (err _, w) = (err e, w)

  abbrev pub with_error : {A : Type 0} → M W A → Error → M W A
  with_error m e w = relabel e (m w)

  -- From a world with `I`, the code leaves one with `I`, and a result with `Q` if it succeeds.
  unfoldable pub Keeps : {A : Type 0} → (W → Type 0) → (A → Type 0) → M W A → Type 0
  Keeps I Q m = (w : W) → I w → I (m w).1 × Ensures Q (m w).0

  module _ (I : W → Type 0) where
    pub Keeps-pure : {A : Type 0} (Q : A → Type 0) (a : A) → Q a → Keeps I Q (pure a)
    unfolding Keeps
    Keeps-pure Q a q w i = (i, q)

    pub Keeps-fail : {A : Type 0} (Q : A → Type 0) (e : Error) → Keeps I Q (fail e)
    unfolding Keeps
    Keeps-fail Q e w i = (i, tt)

    Keeps-and_then :
        {A B : Type 0} (P : A → Type 0) (Q : B → Type 0) (r : Result A × W) (f : A → M W B)
        → I r.1 × Ensures P r.0
        → ((a : A) → P a → Keeps I Q (f a))
        → I (and_then r f).1 × Ensures Q (and_then r f).0
    unfolding Keeps
    Keeps-and_then P Q (ok a, w) f (i, p) h = h a p w i
    Keeps-and_then P Q (err e, w) f (i, p) h = (i, tt)

    pub Keeps-bind :
        {A B : Type 0} (P : A → Type 0) (Q : B → Type 0) (m : M W A) (f : A → M W B)
        → Keeps I P m
        → ((a : A) → P a → Keeps I Q (f a))
        → Keeps I Q (m >>= f)
    unfolding Keeps
    Keeps-bind P Q m f km h w i = Keeps-and_then P Q (m w) f (km w i) h

    pub Keeps-lift :
        {A : Type 0} (Q : A → Type 0) (r : Result A)
        → ((a : A) → r ≡ ok a → Q a)
        → Keeps I Q (lift r)
    unfolding Keeps
    Keeps-lift Q (ok a) h w i = (i, h a refl)
    Keeps-lift Q (err e) h w i = (i, tt)

    pub Keeps-stop_if : (b : Bool) (e : Error) → Keeps I (λ _. b ≡ false) (stop_if b e)
    unfolding Keeps
    Keeps-stop_if true e w i = (i, tt)
    Keeps-stop_if false e w i = (i, refl)

    pub Keeps-ignore :
        {A : Type 0} (Q : A → Type 0) (m : M W A) → Keeps I Q m → Keeps I (λ _. Unit {0}) (ignore m)
    unfolding Keeps
    Keeps-ignore Q m k w i = ((k w i).0, tt)
