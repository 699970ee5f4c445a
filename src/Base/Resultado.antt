-- ===== src/Base/Resultado.antt =====
-- How a call ends: with a value, by `exit`, which ends the whole module, or in a fault, which is
-- where C leaves the behaviour undefined (a NULL pointer, an access out of bounds).
use mathlib.Core.Option.{Option, none, some}
use mathlib.Core.Path.{◌≡◌, refl}

pub data Resultado {ℓ} (A : Type ℓ) : Type ℓ where
  falla : Resultado A
  salir : Resultado A
  ok : A → Resultado A

-- A pointer that is followed: NULL is a fault.
abbrev pub deref {ℓ} : {A : Type ℓ} → Option A → Resultado A
deref none = falla
deref (some a) = ok a

infixl 5 ◌>>=◌
abbrev pub ◌>>=◌ {ℓ κ} :
    {B : Type κ} {A : Type ℓ} (llamada : Resultado A) (seguir : A → Resultado B) → Resultado B
falla >>= seguir = falla
salir >>= seguir = salir
ok valor >>= seguir = seguir valor

-- A sequence that ends with a value has a first part that does.
pub >>=-eq-ok {ℓ κ} :
    {A : Type ℓ} {B : Type κ} (llamada : Resultado A) (seguir : A → Resultado B) {final : B}
    → (llamada >>= seguir) ≡ ok final
    → (valor : A) × (llamada ≡ ok valor) × (seguir valor ≡ ok final)
>>=-eq-ok falla seguir termina = cc
>>=-eq-ok salir seguir termina = cc
>>=-eq-ok (ok valor) seguir termina = (valor, refl, termina)

pub deref-eq-ok {ℓ} : {A : Type ℓ} (o : Option A) {a : A} → deref o ≡ ok a → o ≡ some a
deref-eq-ok none h = cc
deref-eq-ok (some a) h = cc

pub >>=_assoc {ℓ κ μ} :
    {A : Type ℓ} {B : Type κ} {C : Type μ} (m : Resultado A) (f : A → Resultado B)
    (g : B → Resultado C)
    → (m >>= f >>= g) ≡ (m >>= (λ a. f a >>= g))
>>=_assoc (ok a) f g = refl
>>=_assoc salir f g = refl
>>=_assoc falla f g = refl
