-- ===== src/Base/Results.antt =====
-- Go's pair of a value and an error, of which one is set, and what follows from the parts of a chain
-- of such calls.
use mathlib.Core.Path.{◌≡◌, refl, subst}
use mathlib.Core.Bool.{Bool, true, false}
use mathlib.Core.Option.{Option, none, some}
use tileserver_go.Base.Tests.{if◌then◌else◌}

pub data Result (E A : Type 0) : Type 0 where
  ok : A → Result E A
  err : E → Result E A

infixl 5 ◌>>=◌
unfoldable pub ◌>>=◌ : {E A B : Type 0} → Result E A → (A → Result E B) → Result E B
ok a >>= f = f a
err e >>= f = err e

-- if condition { return ..., e }
unfoldable pub refuse_if : {E : Type 0} → Bool → E → Result E Bool
refuse_if condition e = if condition then err e else ok true

unfoldable pub found_or : {E A : Type 0} → E → Option A → Result E A
found_or e none = err e
found_or e (some a) = ok a

-- The error of a callee, wrapped by its caller.
unfoldable pub wrap_error : {E F A : Type 0} → (E → F) → Result E A → Result F A
wrap_error f (ok a) = ok a
wrap_error f (err e) = err (f e)

-- A result whose value fulfils P and whose error fulfils F.
unfoldable pub Gives : {E A : Type 0} → (A → Type 0) → (E → Type 0) → Result E A → Type 0
Gives P F (ok a) = P a
Gives P F (err e) = F e

pub Gives-bind :
    {E A B : Type 0} (Q : A → Type 0) (P : B → Type 0) (F : E → Type 0) (m : Result E A)
    (f : A → Result E B)
    → Gives Q F m
    → ((a : A) → Q a → Gives P F (f a))
    → Gives P F (m >>= f)
unfolding Gives ◌>>=◌
Gives-bind Q P F (ok a) f given next = next a given
Gives-bind Q P F (err e) f given next = given

pub refuse_if-Gives :
    {E : Type 0} (F : E → Type 0) (condition : Bool) (e : E)
    → F e
    → Gives (λ _. condition ≡ false) F (refuse_if condition e)
unfolding Gives refuse_if
refuse_if-Gives F true e fault = fault
refuse_if-Gives F false e fault = refl

pub found_or-Gives :
    {E A : Type 0} (F : E → Type 0) (e : E) (found : Option A)
    → F e
    → Gives (λ a. found ≡ some a) F (found_or e found)
unfolding Gives found_or
found_or-Gives F e none fault = fault
found_or-Gives F e (some a) fault = refl

pub Gives-map :
    {E A : Type 0} (P Q : A → Type 0) (F : E → Type 0) (m : Result E A)
    → ((a : A) → P a → Q a)
    → Gives P F m
    → Gives Q F m
unfolding Gives
Gives-map P Q F (ok a) f given = f a given
Gives-map P Q F (err e) f given = given

-- A result taken as it is: its value is the one that the computation gives.
pub Gives-self :
    {E A : Type 0} (F : E → Type 0) (m : Result E A) → ((e : E) → F e) → Gives (λ a. m ≡ ok a) F m
unfolding Gives
Gives-self F (ok a) all = refl
Gives-self F (err e) all = all e

pub Gives-at :
    {E A : Type 0} (P : A → Type 0) (F : E → Type 0) (m : Result E A) {a : A}
    → Gives P F m
    → m ≡ ok a
    → P a
unfolding Gives
Gives-at P F (ok b) given e = subst P (cc e) given
Gives-at P F (err b) given e = cc

pub wrap_error-Gives :
    {E F A : Type 0} (P : A → Type 0) (Q : E → Type 0) (R : F → Type 0) (f : E → F) (m : Result E A)
    → ((e : E) → Q e → R (f e))
    → Gives P Q m
    → Gives P R (wrap_error f m)
unfolding Gives wrap_error
wrap_error-Gives P Q R f (ok a) fault given = given
wrap_error-Gives P Q R f (err e) fault given = fault e given

module _ {E B : Type 0} (P : B → Type 0) (F : E → Type 0) where
  -- An if of which either branch may rely on the test.
  pub Gives-test :
      (b : Bool) (m n : Result E B)
      → (b ≡ true → Gives P F m)
      → (b ≡ false → Gives P F n)
      → Gives P F (if b then m else n)
  Gives-test true m n p q = p refl
  Gives-test false m n p q = q refl

  pub Gives-if :
      (b : Bool) (m n : Result E B) → Gives P F m → Gives P F n → Gives P F (if b then m else n)
  Gives-if true m n p q = p
  Gives-if false m n p q = q

  pub Gives-err : (e : E) → F e → Gives P F (err e)
  unfolding Gives
  Gives-err e fault = fault

  pub Gives-ok : (b : B) → P b → Gives P F (ok b)
  unfolding Gives
  Gives-ok b p = p

  -- A test in a chain: what follows may rely on its failure.
  pub after_test :
      (condition : Bool) (e : E) (f : Bool → Result E B)
      → F e
      → (condition ≡ false → (done : Bool) → Gives P F (f done))
      → Gives P F (refuse_if condition e >>= f)
  after_test condition e f fault next =
      Gives-bind (λ _. condition ≡ false) P F (refuse_if condition e) f
        (refuse_if-Gives F condition e fault) (λ done passed. next passed done)

  -- A call in a chain of which nothing is known.
  pub after_call :
      {A : Type 0} (m : Result E A) (f : A → Result E B)
      → ((e : E) → F e)
      → ((a : A) → m ≡ ok a → Gives P F (f a))
      → Gives P F (m >>= f)
  after_call m f all next = Gives-bind (λ a. m ≡ ok a) P F m f (Gives-self F m all) next
