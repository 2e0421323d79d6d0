-- ===== src/Base/Triples.antt =====
-- Reasoning about calls: what every step keeps, and what holds of a result.
use mathlib.Core.Path.{◌≡◌, refl, ap, subst}
use mathlib.Core.Bool.{Bool, true, false}
use multi_tenants.Base.Equality.{if◌then◌else◌}
use multi_tenants.Base.Go.{
  Result, ok, err, Error, Call, pure, throw, lift, attempt, then_or_fail, ◌>>=◌,
}

-- The call keeps `P`, whether it succeeds or fails.
pub record Keeps {W A : Type 0} (P : W → Type 0) (m : Call W A) : Type 0 where
  pub run : (w : W) → P w → P (m w).1

-- What the call returns satisfies `Q`.
pub record Returns {W A : Type 0} (Q : A → Type 0) (m : Call W A) : Type 0 where
  pub result : (w : W) (a : A) → (m w).0 ≡ ok a → Q a

-- When the call succeeds, the world that it leaves satisfies `P`.
pub record Ensures {W A : Type 0} (P : W → Type 0) (m : Call W A) : Type 0 where
  pub after : (w : W) (a : A) → (m w).0 ≡ ok a → P (m w).1

module _ {W A : Type 0} {P : W → Type 0} where
  pub Keeps-pure : (a : A) → Keeps P (pure a)
  unfolding pure
  Keeps-pure a = record { run = λ w h. h }

  pub Keeps-throw : (e : Error) → Keeps P (throw {A = A} e)
  unfolding throw
  Keeps-throw e = record { run = λ w h. h }

  pub Keeps-lift : (r : Result A) → Keeps P (lift r)
  unfolding lift
  Keeps-lift r = record { run = λ w h. h }

  pub Keeps-if : (b : Bool) (m n : Call W A) → Keeps P m → Keeps P n → Keeps P (if b then m else n)
  Keeps-if true m n h g = h
  Keeps-if false m n h g = g

  pub Ensures-if :
      (b : Bool) (m n : Call W A) → Ensures P m → Ensures P n → Ensures P (if b then m else n)
  Ensures-if true m n h g = h
  Ensures-if false m n h g = g

  pub Ensures-throw : (e : Error) → Ensures P (throw {A = A} e)
  unfolding throw
  Ensures-throw e = record { after = λ w a q. cc }

module _ {W A B : Type 0} {P : W → Type 0} where
  pub Keeps-attempt :
      (m : Call W A) (k : Result A → Call W B)
      → Keeps P m
      → ((r : Result A) → Keeps P (k r))
      → Keeps P (attempt m k)
  unfolding attempt
  Keeps-attempt m k h g = record { run = λ w x. (g (m w).0).run (m w).1 (h.run w x) }

  Keeps-then :
      (f : A → Call W B) (r : Result A)
      → ((a : A) → r ≡ ok a → Keeps P (f a))
      → Keeps P (then_or_fail f r)
  unfolding then_or_fail
  Keeps-then f (ok a) g = g a refl
  Keeps-then f (err e) g = Keeps-throw e

  pub Keeps-bind :
      (m : Call W A) (f : A → Call W B) → Keeps P m → ((a : A) → Keeps P (f a)) → Keeps P (m >>= f)
  unfolding ◌>>=◌
  Keeps-bind m f h g = record {
    run = λ w x. (Keeps-then f (m w).0 (λ a _. g a)).run (m w).1 (h.run w x);
  }

  -- The rest may use what the first call returns.
  pub Keeps-bind_of :
      (Q : A → Type 0) (m : Call W A) (f : A → Call W B)
      → Keeps P m
      → Returns Q m
      → ((a : A) → Q a → Keeps P (f a))
      → Keeps P (m >>= f)
  unfolding ◌>>=◌
  Keeps-bind_of Q m f h q g = record {
    run = λ w x. (Keeps-then f (m w).0 (λ a e. g a (q.result w a e))).run (m w).1 (h.run w x);
  }

  Ensures-then :
      (f : A → Call W B) (r : Result A)
      → ((a : A) → r ≡ ok a → Ensures P (f a))
      → Ensures P (then_or_fail f r)
  unfolding then_or_fail
  Ensures-then f (ok a) g = g a refl
  Ensures-then f (err e) g = Ensures-throw e

  -- What the last call ensures, given what the first returns.
  pub Ensures-bind_of :
      (Q : A → Type 0) (m : Call W A) (f : A → Call W B)
      → Returns Q m
      → ((a : A) → Q a → Ensures P (f a))
      → Ensures P (m >>= f)
  unfolding ◌>>=◌
  Ensures-bind_of Q m f q g = record {
    after = λ w b e. (Ensures-then f (m w).0 (λ a e'. g a (q.result w a e'))).after (m w).1 b e;
  }

  pub Ensures-bind_last :
      (m : Call W A) (f : A → Call W B) → ((a : A) → Ensures P (f a)) → Ensures P (m >>= f)
  unfolding ◌>>=◌
  Ensures-bind_last m f g = record {
    after = λ w b e. (Ensures-then f (m w).0 (λ a _. g a)).after (m w).1 b e;
  }

  then-Ensures_first :
      (f : A → Call W B) (r : Result A) (w : W) (b : B)
      → ((a : A) → r ≡ ok a → P w)
      → ((a : A) → Keeps P (f a))
      → (then_or_fail f r w).0 ≡ ok b
      → P (then_or_fail f r w).1
  unfolding then_or_fail
  then-Ensures_first f (ok a) w b h g q = (g a).run w (h a refl)
  then-Ensures_first f (err e) w b h g q = cc

  -- What the first call ensures and the rest keeps.
  pub Ensures-bind_first :
      (m : Call W A) (f : A → Call W B)
      → Ensures P m
      → ((a : A) → Keeps P (f a))
      → Ensures P (m >>= f)
  unfolding ◌>>=◌
  Ensures-bind_first m f h g = record {
    after = λ w b q. then-Ensures_first f (m w).0 (m w).1 b (λ a e. h.after w a e) g q;
  }

ok_inj : {A : Type 0} (a b : A) → Result.ok a ≡ ok b → a ≡ b
ok_inj a b h = cc

module _ {W A : Type 0} {Q : A → Type 0} where
  pub Returns-throw : (e : Error) → Returns {W = W} Q (throw e)
  unfolding throw
  Returns-throw e = record { result = λ w a q. cc }

  pub Returns-pure : (a : A) → Q a → Returns {W = W} Q (pure a)
  unfolding pure
  Returns-pure a h = record { result = λ w b q. subst Q (ok_inj a b q) h }

  pub Returns-if :
      (b : Bool) (m n : Call W A)
      → (b ≡ true → Returns Q m)
      → (b ≡ false → Returns Q n)
      → Returns Q (if b then m else n)
  Returns-if true m n h g = h refl
  Returns-if false m n h g = g refl

module _ {W A B : Type 0} {Q : B → Type 0} where
  then-Returns :
      (f : A → Call W B) (r : Result A)
      → ((a : A) → r ≡ ok a → Returns Q (f a))
      → Returns Q (then_or_fail f r)
  unfolding then_or_fail
  then-Returns f (ok a) h = h a refl
  then-Returns f (err e) h = Returns-throw e

  pub Returns-bind_of :
      (P : A → Type 0) (m : Call W A) (f : A → Call W B)
      → Returns P m
      → ((a : A) → P a → Returns Q (f a))
      → Returns Q (m >>= f)
  unfolding ◌>>=◌
  Returns-bind_of P m f p h = record {
    result = λ w b q. (then-Returns f (m w).0 (λ a e. h a (p.result w a e))).result (m w).1 b q;
  }

  pub Returns-bind :
      (m : Call W A) (f : A → Call W B) → ((a : A) → Returns Q (f a)) → Returns Q (m >>= f)
  unfolding ◌>>=◌
  Returns-bind m f h = record {
    result = λ w b q. (then-Returns f (m w).0 (λ a _. h a)).result (m w).1 b q;
  }

pub ruleset keeps = (Keeps-pure, Keeps-throw, Keeps-lift, Keeps-if, Keeps-bind)

then-ok :
    {W A B : Type 0} (f : A → Call W B) (r : Result A) (w : W) (b : B)
    → (then_or_fail f r w).0 ≡ ok b
    → (a : A) × ((r ≡ ok a) × ((f a w).0 ≡ ok b))
unfolding then_or_fail throw
then-ok f (ok a) w b h = (a, (refl, h))
then-ok f (err e) w b h = cc

-- A sequence that succeeds is two calls that succeed.
pub >>=-ok :
    {W A B : Type 0} (m : Call W A) (f : A → Call W B) (w : W) (b : B)
    → ((m >>= f) w).0 ≡ ok b
    → (a : A) × (((m w).0 ≡ ok a) × ((f a (m w).1).0 ≡ ok b))
unfolding ◌>>=◌
>>=-ok m f w b h = then-ok f (m w).0 (m w).1 b h

-- After a call that succeeds, the rest goes on with its value.
pub >>=-of_ok :
    {W A B : Type 0} (m : Call W A) (f : A → Call W B) (w : W) (a : A)
    → (m w).0 ≡ ok a
    → (m >>= f) w ≡ f a (m w).1
unfolding ◌>>=◌
>>=-of_ok m f w a h = ap (λ r. then_or_fail f r (m w).1) h
