-- ===== src/Base/Go.antt =====
-- Go's errors, results and calls that act on the outside world.
use Prim.Native.Nat.{ℕ}
use Prim.Native.String.{String}
use mathlib.Core.Option.{Option, none, some}

-- An `error`: made by `errors.New` or `fmt.Errorf`, or by code outside, with its `Error()` text.
pub data Error : Type 0 where
  message : String → Error
  foreign : ℕ → String → Error

unfoldable pub error_text : Error → String
error_text (message s) = s
error_text (foreign _ s) = s

-- `(value, error)`: exactly one of the two is there.
pub data Result {ℓ} (A : Type ℓ) : Type ℓ where
  ok : A → Result A
  err : Error → Result A

abbrev pub error_of {ℓ} : {A : Type ℓ} → Result A → Option Error
error_of (ok _) = none
error_of (err e) = some e

-- A call over the world outside, of type `W`. The world moves on also when the call fails.
abbrev pub Call : Type 0 → Type 0 → Type 0
Call W A = W → Result A × W

unfoldable pub pure : {W A : Type 0} → A → Call W A
pure a w = (ok a, w)

unfoldable pub throw : {W A : Type 0} → Error → Call W A
throw e w = (err e, w)

unfoldable pub lift : {W A : Type 0} → Result A → Call W A
lift r w = (r, w)

abbrev pub handle : {W A B : Type 0} → (Result A → Call W B) → Result A × W → Result B × W
handle k (r, w) = k r w

-- What stands after `x, err := f()`: both cases of the result are handed on.
unfoldable pub attempt : {W A B : Type 0} → Call W A → (Result A → Call W B) → Call W B
unfolding pure throw lift
attempt m k w = handle k (m w)

unfoldable pub then_or_fail : {W A B : Type 0} → (A → Call W B) → Result A → Call W B
unfolding throw
then_or_fail f (ok a) = f a
then_or_fail f (err e) = throw e

-- `if err != nil { return err }`
infixl 5 ◌>>=◌ ◌>>◌
unfoldable pub ◌>>=◌ : {W A B : Type 0} → Call W A → (A → Call W B) → Call W B
unfolding attempt then_or_fail
m >>= f = attempt m (then_or_fail f)

abbrev pub ◌>>◌ : {W B : Type 0} → Call W (Unit {0}) → Call W B → Call W B
m >> k = m >>= λ _. k
