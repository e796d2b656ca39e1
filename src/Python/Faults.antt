-- ===== src/Python/Faults.antt =====
-- Exceptions as values, by the classes of errors.py that handlers ask for. `resource` and
-- `unsupported` are SynnoErrors too.
use synno_db.Base.{String, Bool, true, false, ◌≡◌, refl, ◌⊎◌, inl, inr}

pub data Fault : Type 0 where
  -- SynnoUnsupportedQuery, EngineResourceError, any other SynnoError, any other Exception
  unsupported resource synno other : String → Fault

abbrev pub is_synno : Fault → Bool
is_synno (other _) = false
is_synno _ = true

abbrev pub is_resource : Fault → Bool
is_resource (resource _) = true
is_resource _ = false

pub data Result {ℓ} (A : Type ℓ) : Type ℓ where
  ok : A → Result A
  err : Fault → Result A

infixl 5 ◌>>=◌
abbrev pub ◌>>=◌ {ℓ κ} : {A : Type ℓ} {B : Type κ} → Result A → (A → Result B) → Result B
ok a >>= f = f a
err e >>= f = err e

abbrev pub is_ok {ℓ} : {A : Type ℓ} → Result A → Bool
is_ok (ok a) = true
is_ok (err e) = false

-- str(exc)
abbrev pub message : Fault → String
message (unsupported m) = m
message (resource m) = m
message (synno m) = m
message (other m) = m

pub Result-cases {ℓ} :
    {A : Type ℓ} (r : Result A) → ((a : A) × (r ≡ ok a)) ⊎ ((e : Fault) × (r ≡ err e))
Result-cases (ok a) = inl (a, refl)
Result-cases (err e) = inr (e, refl)

-- Inversion of a bind that succeeds.
pub >>=-eq-ok {ℓ κ} :
    {A : Type ℓ} {B : Type κ} (r : Result A) (f : A → Result B) {b : B}
    → (r >>= f) ≡ ok b
    → (a : A) × (r ≡ ok a) × (f a ≡ ok b)
>>=-eq-ok (ok a) f h = (a, refl, h)
>>=-eq-ok (err e) f h = absurd (cc)

pub ok_injective {ℓ} : {A : Type ℓ} {a b : A} → ok a ≡ ok b → a ≡ b
ok_injective h = cc
