-- ===== src/Base/Results.antt =====
-- What a piece of Python code ends with: a value, or the exception that it raises.
use mathlib.Core.Path.{◌≡◌, refl, ap, ◌∙◌}
use mathlib.Core.Logic.{◌⊎◌, inl, inr}
use mathlib.Core.List.{List, [], ◌∷◌, map}
use nano_tick.Base.Lists.{All}

-- the exceptions that the modelled code raises, by their Python names
pub data Error : Type 0 where
  value_error key_error type_error index_error overflow_error runtime_error connection_error : Error
  os_error : Error

pub data Result {ℓ} (A : Type ℓ) : Type ℓ where
  ok : A → Result A
  raise : Error → Result A

infixl 5 ◌>>=◌ ◌>>◌
abbrev pub ◌>>=◌ {ℓ κ} : {A : Type ℓ} {B : Type κ} → Result A → (A → Result B) → Result B
ok a >>= f = f a
raise e >>= f = raise e

abbrev pub ◌>>◌ {ℓ κ} : {A : Type ℓ} {B : Type κ} → Result A → Result B → Result B
m >> k = m >>= λ _. k

pub ok_injective {ℓ} : {A : Type ℓ} {a b : A} → ok a ≡ ok b → a ≡ b
ok_injective e = cc

pub Result-cases {ℓ} :
    {A : Type ℓ} (r : Result A) → ((a : A) × (r ≡ ok a)) ⊎ ((e : Error) × (r ≡ raise e))
Result-cases (ok a) = inl (a, refl)
Result-cases (raise e) = inr (e, refl)

-- the results for all items, or the first exception
abbrev pub read_all : {A B : Type 0} → (A → Result B) → List A → Result (List B)
read_all read [] = ok []
read_all read (t ∷ ts) = do row ← read t; rows ← read_all read ts; ok (row ∷ rows)

pub read_all-map :
    {A B : Type 0} (read : A → Result B) (f : A → B) (ts : List A)
    → All (λ t. read t ≡ ok (f t)) ts
    → read_all read ts ≡ ok (map f ts)
read_all-map read f [] h = refl
read_all-map read f (t ∷ ts) h =
    ap (λ r. r >>= λ row. read_all read ts >>= λ rows. ok (row ∷ rows)) h.0
    ∙ ap (λ r. r >>= λ rows. ok (f t ∷ rows)) (read_all-map read f ts h.1)
