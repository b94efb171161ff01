-- ===== src/Base/Results.antt =====
-- Code that may raise and that works on a state.
use mathlib.Core.Path.{◌≡◌, refl, subst}
use mathlib.Core.Option.{Option, none, some}
use mathlib.Core.Bool.{Bool, true, false}
use cine_gate.Base.Tests.{if◌then◌else◌}

pub data Result {ℓ} (E A : Type ℓ) : Type ℓ where
  ok : A → Result E A
  err : E → Result E A

-- What was written before a raise is in the state beside the error.
abbrev pub Exec {ℓ} : Type ℓ → Type ℓ → Type ℓ → Type ℓ
Exec S E A = S → Result E A × S

module _ {ℓ} {S E A : Type ℓ} where
  abbrev pub pure : A → Exec S E A
  pure a s = (ok a, s)

  abbrev pub raise : E → Exec S E A
  raise e s = (err e, s)

  abbrev pub gets : (S → A) → Exec S E A
  gets f s = (ok (f s), s)

  -- The value, or the error where there is none.
  abbrev pub or_raise : Option A → E → Exec S E A
  or_raise none e s = (err e, s)
  or_raise (some a) e s = (ok a, s)

  abbrev pub roll_back : S → Result E A × S → Result E A × S
  roll_back s (ok a, t) = (ok a, t)
  roll_back s (err e, t) = (err e, s)

  -- `async with session.begin()`: a raise undoes what the block wrote.
  abbrev pub transaction : Exec S E A → Exec S E A
  transaction m s = roll_back s (m s)

  -- What holds before the block and after its writes holds after the transaction.
  pub roll_back_keeps :
      (P : S → Type 0) (s : S) (r : Result E A × S) → P s → P r.1 → P (roll_back s r).1
  roll_back_keeps P s (ok a, t) h k = k
  roll_back_keeps P s (err e, t) h k = h

  pub roll_back_result : (s : S) (r : Result E A × S) → (roll_back s r).0 ≡ r.0
  roll_back_result s (ok a, t) = refl
  roll_back_result s (err e, t) = refl

module _ {ℓ} {S E A B : Type ℓ} where
  abbrev continue : (A → Exec S E B) → Result E A × S → Result E B × S
  continue f (ok a, s) = f a s
  continue f (err e, s) = (err e, s)

  infixl 5 ◌>>=◌
  abbrev pub ◌>>=◌ : Exec S E A → (A → Exec S E B) → Exec S E B
  ◌>>=◌ m f s = continue f (m s)

-- A write to the state.
abbrev pub modify : {S E : Type 0} → (S → S) → Exec S E (Unit {0})
modify f s = (ok tt, f s)

infixl 5 ◌>>◌
abbrev pub ◌>>◌ : {S E B : Type 0} → Exec S E (Unit {0}) → Exec S E B → Exec S E B
m >> k = m >>= λ _. k

module _ {ℓ κ} {S E A : Type ℓ} where
  -- What holds of the answer and the state, unless there was a raise.
  abbrev pub Ensures : (A → S → Type κ) → Result E A × S → Type κ
  Ensures P (ok a, s) = P a s
  Ensures P (err e, s) = Unit

  pub map-Ensures :
      (P Q : A → S → Type κ) (r : Result E A × S)
      → ((a : A) (t : S) → P a t → Q a t)
      → Ensures P r
      → Ensures Q r
  map-Ensures P Q (ok a, t) f h = f a t h
  map-Ensures P Q (err e, t) f h = tt

  pub Ensures-roll_back :
      (P : A → S → Type κ) (s : S) (r : Result E A × S) → Ensures P r → Ensures P (roll_back s r)
  Ensures-roll_back P s (ok a, t) h = h
  Ensures-roll_back P s (err e, t) h = tt

  pub Ensures-ok :
      (P : A → S → Type κ) (r : Result E A × S) (a : A) (t : S)
      → Ensures P r
      → r ≡ (ok a, t)
      → P a t
  Ensures-ok P r a t h e = subst (Ensures P) e h

  pub any-Ensures : (r : Result E A × S) → Ensures (λ a t. Unit {κ}) r
  any-Ensures (ok a, t) = tt
  any-Ensures (err e, t) = tt

  -- Both branches.
  pub if-Ensures :
      (P : A → S → Type κ) (b : Bool) (x y : Result E A × S)
      → Ensures P x
      → Ensures P y
      → Ensures P (if b then x else y)
  if-Ensures P true x y h k = h
  if-Ensures P false x y h k = k

  pub roll_back-Ensures :
      (P : S → Type κ) (s : S) (r : Result E A × S)
      → P s
      → Ensures (λ a t. P t) r
      → P (roll_back s r).1
  roll_back-Ensures P s (ok a, t) h k = k
  roll_back-Ensures P s (err e, t) h k = h

module _ {ℓ κ} {S E A B : Type ℓ} where
  continue-Ensures :
      (P : A → S → Type κ) (Q : B → S → Type κ) (f : A → Exec S E B) (r : Result E A × S)
      → Ensures P r
      → ((a : A) (t : S) → P a t → Ensures Q (f a t))
      → Ensures Q (continue f r)
  continue-Ensures P Q f (ok a, t) h k = k a t h
  continue-Ensures P Q f (err e, t) h k = tt

  pub bind-Ensures :
      (P : A → S → Type κ) (Q : B → S → Type κ) (m : Exec S E A) (f : A → Exec S E B) (s : S)
      → Ensures P (m s)
      → ((a : A) (t : S) → P a t → Ensures Q (f a t))
      → Ensures Q ((m >>= f) s)
  bind-Ensures P Q m f s h k = continue-Ensures P Q f (m s) h k
