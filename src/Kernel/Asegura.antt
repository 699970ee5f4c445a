-- ===== src/Kernel/Asegura.antt =====
-- What a call that ends with a value leaves behind, and the rules that go through a `do` block.
use tp_sistemas_operativos.Base.{◌≡◌, subst, refl, Bool, true, false, if◌then◌else◌}
use tp_sistemas_operativos.Base.Resultado.{Resultado, ok, salir, falla, ◌>>=◌, >>=-eq-ok}

-- Where the call ends with a value, the value is as stated.
pub record Asegura {ℓ κ} {A : Type ℓ} (P : A → Type κ) (r : Resultado A) : Type (ℓ ⊔ κ) where
  pub cumple : (a : A) → r ≡ ok a → P a

module _ {ℓ κ μ} {A : Type ℓ} {B : Type κ} {Q : B → Type μ} where
  -- The rest of a block, for every value that the first part may end with.
  pub Asegura-bind {ν} :
      {P : A → Type ν} (m : Resultado A) {f : A → Resultado B}
      → Asegura P m
      → ((a : A) → P a → Asegura Q (f a))
      → Asegura Q (m >>= f)
  Asegura-bind m {f = f} h k = record {
    cumple = λ b e. let (a, p, q) = >>=-eq-ok m f e in (k a (h.cumple a p)).cumple b q;
  }

  pub Asegura-luego :
      (m : Resultado A) {f : A → Resultado B}
      → ((a : A) → m ≡ ok a → Asegura Q (f a))
      → Asegura Q (m >>= f)
  Asegura-luego m {f = f} k = record {
    cumple = λ b e. let (a, p, q) = >>=-eq-ok m f e in (k a p).cumple b q;
  }

module _ {ℓ κ} {A : Type ℓ} {P : A → Type κ} where
  pub Asegura-ok : (a : A) → P a → Asegura P (ok a)
  Asegura-ok a h = record { cumple = λ b e. subst P (cc) h }

  pub Asegura-falla : Asegura P falla
  Asegura-falla = record { cumple = λ b e. absurd (cc) }

  pub Asegura-salir : Asegura P salir
  Asegura-salir = record { cumple = λ b e. absurd (cc) }

  pub Asegura-if :
      (b : Bool) {x y : Resultado A}
      → (b ≡ true → Asegura P x)
      → (b ≡ false → Asegura P y)
      → Asegura P (if b then x else y)
  Asegura-if true hx hy = hx refl
  Asegura-if false hx hy = hy refl

  pub Asegura-weaken {μ} :
      {Q : A → Type μ} {m : Resultado A} → Asegura Q m → ((a : A) → Q a → P a) → Asegura P m
  Asegura-weaken h k = record { cumple = λ a e. k a (h.cumple a e) }
