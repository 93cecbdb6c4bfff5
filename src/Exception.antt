-- ===== src/Exception.antt =====
-- The C++ exceptions that the runtime throws, and functions that may throw them. An exception
-- carries the bytes of its `what()` text.
use monte_carlo.Prelude.{
  ℕ, List, Bool, true, false, ◌≡◌, refl, bytes_of, String, Option, none, some, ◌⊎◌, inl, inr,
}

pub data Exception : Type 0 where
  invalid_argument : List ℕ → Exception
  runtime_error : List ℕ → Exception
  domain_error : List ℕ → Exception
  overflow_error : List ℕ → Exception
  length_error : List ℕ → Exception
  out_of_range : List ℕ → Exception
  logic_error : List ℕ → Exception
  invalid_durable_artifact : List ℕ → Exception

pub data Result {ℓ} (A : Type ℓ) : Type ℓ where
  ok : A → Result A
  err : Exception → Result A

-- A function of the value that came back.
abbrev pub map {ℓ κ} : {A : Type ℓ} {B : Type κ} → (A → B) → Result A → Result B
map f (ok a) = ok (f a)
map f (err e) = err e

infixl 5 ◌>>=◌ ◌>>◌
-- The next statement, unless an exception has left the function.
abbrev pub ◌>>=◌ {ℓ κ} : {A : Type ℓ} {B : Type κ} → Result A → (A → Result B) → Result B
err exception >>= next = err exception
ok value >>= next = next value

-- `if (test) throw e;`
abbrev pub throw_if : Bool → Exception → Result (Unit {0})
throw_if true e = err e
throw_if false e = ok tt

abbrev pub ◌>>◌ {ℓ} : {B : Type ℓ} → Result (Unit {0}) → Result B → Result B
first >> second = first >>= λ done. second

-- `if (error.has_value()) throw make(*error);`
abbrev pub throw_some {ℓ} : {A : Type ℓ} → Option A → (A → Exception) → Result (Unit {0})
throw_some none make = ok tt
throw_some (some a) make = err (make a)

-- The `what()` text of a literal.
abbrev pub what : String → List ℕ
what s = bytes_of s

-- A bind that returned had a first step that returned.
pub >>=-eq-ok {ℓ κ} :
    {A : Type ℓ} {B : Type κ} (step : Result A) (next : A → Result B) {result : B}
    → (step >>= next) ≡ ok result
    → (value : A) × (step ≡ ok value) × (next value ≡ ok result)
>>=-eq-ok (err exception) next h = cc
>>=-eq-ok (ok value) next h = (value, refl, h)

-- A guard that was passed had a false test.
pub throw_if-eq-ok {ℓ} :
    {B : Type ℓ} (t : Bool) (e : Exception) (k : Result B) {b : B}
    → (throw_if t e >> k) ≡ ok b
    → (t ≡ false) × (k ≡ ok b)
throw_if-eq-ok true e k h = cc
throw_if-eq-ok false e k h = (refl, h)

pub throw_some-eq-ok {ℓ κ} :
    {A : Type ℓ} {B : Type κ} (o : Option A) (make : A → Exception) (k : Result B) {b : B}
    → (throw_some o make >> k) ≡ ok b
    → (o ≡ none) × (k ≡ ok b)
throw_some-eq-ok none make k h = (refl, h)
throw_some-eq-ok (some a) make k h = cc

-- Either a value or an exception comes back.
pub Result-cases {ℓ} :
    {A : Type ℓ} (r : Result A) → ((a : A) × (r ≡ ok a)) ⊎ ((e : Exception) × (r ≡ err e))
Result-cases (ok a) = inl (a, refl)
Result-cases (err e) = inr (e, refl)

-- The call returns.
abbrev pub Returns {ℓ} : {A : Type ℓ} → Result A → Type 0
Returns (ok a) = Unit
Returns (err e) = ⊥

pub Returns→ok {ℓ} : {A : Type ℓ} (r : Result A) → Returns r → (a : A) × (r ≡ ok a)
Returns→ok (ok a) h = (a, refl)
Returns→ok (err e) h = absurd h
