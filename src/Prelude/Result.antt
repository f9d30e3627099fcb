-- ===== src/Prelude/Result.antt =====
-- Python's exceptions as values: what a pure function raises, and the monad of such functions.
use mathlib.Core.Path.{◌≡◌, refl}
use mathlib.Core.Bool.{Bool, true, false}
use mathlib.Core.Option.{Option, none, some}
use mathlib.Core.Logic.{◌⊎◌, inl, inr}
use Prim.Native.Nat.{ℕ}
use mathlib.Core.List.{List}
use voidz.Prelude.Lists.{get_elem?}

-- `http` is `HTTPException` with its status code.
pub data Exn : Type 0 where
  value_error index_error type_error permission_error overflow_error : Exn
  connection_error driver_error runtime_error name_error os_error : Exn
  http : ℕ → Exn

-- A value, or the exception in its place.
pub data Result {ℓ} (V : Type ℓ) : Type ℓ where
  raise : Exn → Result V
  ok : (value : V) → Result V

-- A chain stops at the first exception.
abbrev pub ◌>>=◌ {ℓ κ} : {V : Type ℓ} {W : Type κ} (m : Result V) (next : V → Result W) → Result W
raise exn >>= next = raise exn
ok v >>= next = next v

abbrev pub ◌>>◌ {ℓ κ} : {V : Type ℓ} {W : Type κ} (m : Result V) (next : Result W) → Result W
raise exn >> next = raise exn
ok v >> next = next

infixl 5 ◌>>=◌ ◌>>◌
-- `if bad: raise e`
abbrev pub fail_if : Bool → Exn → Result (Unit {0})
fail_if true e = raise e
fail_if false e = ok tt

abbrev pub or_raise {ℓ} : {A : Type ℓ} → Exn → Option A → Result A
or_raise e none = raise e
or_raise e (some a) = ok a

-- `xs[i]` for a nonnegative i
abbrev pub at {ℓ} : {A : Type ℓ} → List A → ℕ → Result A
at xs i = or_raise index_error (get_elem? xs i)

-- A chain that returns has returned at each step.
pub >>=-eq-ok {ℓ κ} :
    {V : Type ℓ} {W : Type κ} (m : Result V) (next : V → Result W) {w : W}
    → (m >>= next) ≡ ok w
    → (v : V) × (m ≡ ok v) × (next v ≡ ok w)
>>=-eq-ok (raise exn) next returns = cc
>>=-eq-ok (ok v) next returns = (v, refl, returns)

pub >>-eq-ok {ℓ κ} :
    {V : Type ℓ} {W : Type κ} (m : Result V) (next : Result W) {w : W}
    → (m >> next) ≡ ok w
    → next ≡ ok w
>>-eq-ok (raise exn) next returns = cc
>>-eq-ok (ok v) next returns = returns

pub fail_if-eq-ok {ℓ} :
    {B : Type ℓ} (bad : Bool) (e : Exn) (k : Result B) {b : B}
    → (fail_if bad e >> k) ≡ ok b
    → (bad ≡ false) × (k ≡ ok b)
fail_if-eq-ok true e k h = cc
fail_if-eq-ok false e k h = (refl, h)

-- Where a chain raises, its first step does, or the rest after it.
pub >>=-eq-raise {ℓ κ} :
    {A : Type ℓ} {B : Type κ} (m : Result A) (f : A → Result B) {e : Exn}
    → (m >>= f) ≡ raise e
    → (m ≡ raise e) ⊎ ((a : A) × (m ≡ ok a) × (f a ≡ raise e))
>>=-eq-raise (ok a) f h = inr (a, refl, h)
>>=-eq-raise (raise e) f h = inl (cc)
