-- ===== src/Kernel/Logra.antt =====
-- That a call ends with a value, and what it leaves behind; the rules go through a `do` block.
use tp_sistemas_operativos.Base.{◌≡◌, refl, ap, ◌∙◌, Bool, true, false, if◌then◌else◌}
use tp_sistemas_operativos.Base.Resultado.{Resultado, ok, ◌>>=◌}
use tp_sistemas_operativos.Kernel.Asegura.{Asegura}

pub record Logra {ℓ κ} {A : Type ℓ} (P : A → Type κ) (r : Resultado A) : Type (ℓ ⊔ κ) where
  pub valor : A
  pub termina : r ≡ ok valor
  pub cumple : P valor

module _ {ℓ κ} {A : Type ℓ} {P : A → Type κ} where
  pub Logra-ok : (a : A) → P a → Logra P (ok a)
  Logra-ok a h = record { valor = a; termina = refl; cumple = h }

  pub Logra-if :
      (b : Bool) {x y : Resultado A}
      → (b ≡ true → Logra P x)
      → (b ≡ false → Logra P y)
      → Logra P (if b then x else y)
  Logra-if true hx hy = hx refl
  Logra-if false hx hy = hy refl

  pub Logra-weaken {μ} :
      {Q : A → Type μ} {m : Resultado A} → Logra Q m → ((a : A) → Q a → P a) → Logra P m
  Logra-weaken h k = record { valor = h.valor; termina = h.termina; cumple = k h.valor h.cumple }

  -- What holds wherever the call ends holds where it does.
  pub Logra-Asegura {μ} :
      {Q : A → Type μ} {m : Resultado A} → Logra P m → Asegura Q m → Logra (λ a. P a × Q a) m
  Logra-Asegura h s = record {
    valor = h.valor;
    termina = h.termina;
    cumple = (h.cumple, s.cumple h.valor h.termina);
  }

module _ {ℓ κ μ} {A : Type ℓ} {B : Type κ} {Q : B → Type μ} where
  -- The rest of a block, after a first part that ends with a value.
  pub Logra-bind {ν} :
      {P : A → Type ν} (m : Resultado A) {f : A → Resultado B}
      → Logra P m
      → ((a : A) → P a → Logra Q (f a))
      → Logra Q (m >>= f)
  Logra-bind m {f = f} h k =
      let resto = k h.valor h.cumple in
      record {
        valor = resto.valor;
        termina = ap (λ r. r >>= f) h.termina ∙ resto.termina;
        cumple = resto.cumple;
      }

  -- A first part whose value is known.
  pub Logra-luego :
      (m : Resultado A) (a : A) (f : A → Resultado B) → m ≡ ok a → Logra Q (f a) → Logra Q (m >>= f)
  Logra-luego m a f h resto = record {
    valor = resto.valor;
    termina = ap (λ r. r >>= f) h ∙ resto.termina;
    cumple = resto.cumple;
  }
