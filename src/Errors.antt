-- ===== src/Errors.antt =====
-- asphallea/errors.py, the exceptions of the other modules and of Python, and results that may raise.
use asphallea.Prelude.{ap, String, ◌≡◌, refl, ◌⊎◌, inl, inr}
use asphallea.Decision.{Decision}

-- What may be raised, with the message, or with the decision and the tool. `error` stands for what a
-- tool raises, and for other exceptions of Python.
pub data Exception : Type 0 where
  value_error : String → Exception
  type_error : String → Exception
  attribute_error : String → Exception
  os_error : String → Exception
  policy_error : String → Exception
  integrity_error : String → Exception
  policy_violation : Decision → String → Exception
  policy_timeout : Decision → String → Exception
  containment_unavailable : Decision → String → Exception
  verification_error : String → Exception
  error : String → Exception

pub data Result {ℓ} (A : Type ℓ) : Type ℓ where
  ok : A → Result A
  raise : Exception → Result A

infixl 5 ◌>>=◌
abbrev pub ◌>>=◌ {ℓ κ} : {A : Type ℓ} {B : Type κ} → Result A → (A → Result B) → Result B
ok a >>= f = f a
raise x >>= f = raise x

infixl 5 ◌>>◌
abbrev pub ◌>>◌ {κ} : {Y : Type κ} → Result (Unit {0}) → Result Y → Result Y
first >> next = first >>= λ done. next

pub Result-cases {ℓ} :
    {A : Type ℓ} (r : Result A) → ((a : A) × (r ≡ ok a)) ⊎ ((x : Exception) × (r ≡ raise x))
Result-cases (ok a) = inl (a, refl)
Result-cases (raise x) = inr (x, refl)

-- What a chain that returns has done first.
pub >>=-ok {ℓ κ} :
    {X : Type ℓ} {Y : Type κ} {y : Y} (first : Result X) (next : X → Result Y)
    → (first >>= next) ≡ ok y
    → (x : X) × (first ≡ ok x) × (next x ≡ ok y)
>>=-ok (raise e) next returned = cc
>>=-ok (ok x) next returned = (x, refl, returned)

abbrev value_or {ℓ} : {A : Type ℓ} → A → Result A → A
value_or a (ok b) = b
value_or a (raise x) = a

pub ok-injective {ℓ} : {A : Type ℓ} {a b : A} → ok a ≡ ok b → a ≡ b
ok-injective {a = a} h = ap (value_or a) h

-- Chains that go on alike are alike.
pub >>=-ap {ℓ κ} :
    {X : Type ℓ} {Y : Type κ} (first : Result X) {f g : X → Result Y}
    → ((x : X) → f x ≡ g x)
    → (first >>= f) ≡ (first >>= g)
>>=-ap (ok x) alike = alike x
>>=-ap (raise e) alike = refl

pub >>=_assoc {ℓ κ μ} :
    {X : Type ℓ} {Y : Type κ} {Z : Type μ} (first : Result X) (f : X → Result Y) (g : Y → Result Z)
    → ((first >>= f) >>= g) ≡ (first >>= (λ x. f x >>= g))
>>=_assoc (ok x) f g = refl
>>=_assoc (raise e) f g = refl
