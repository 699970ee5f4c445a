-- ===== src/Utils/Bytes.antt =====
-- The bytes of a `uint32_t` or an `int` in memory, lowest byte first, and blocks of bytes. An `int`
-- is read as its bit pattern.
use tp_sistemas_operativos.Base.{
  ℕ, ◌+◌, ◌*◌, ◌/◌, ◌%◌, ◌<◌, ◌≡◌, refl, List, [], ◌∷◌, ◌++◌, arith, leb, le→leb, length, take,
  drop, length-append, u32_mod, if◌then◌else◌, ap,
}
use tp_sistemas_operativos.Base.Resultado.{Resultado, ok, falla}

unfoldable pub bytes_de : ℕ → List ℕ
bytes_de n = n % 256 ∷ n / 256 % 256 ∷ n / 65536 % 256 ∷ n / 16777216 % 256 ∷ []

-- A read of four bytes; past the end of the block it is a fault.
unfoldable pub leer_entero : List ℕ → Resultado (ℕ × List ℕ)
leer_entero (a ∷ b ∷ c ∷ d ∷ resto) = ok (a + 256 * b + 65536 * c + 16777216 * d, resto)
leer_entero _ = falla

-- A read of a number of bytes.
unfoldable pub leer_bytes : ℕ → List ℕ → Resultado (List ℕ × List ℕ)
leer_bytes n bs = if leb n (length bs) then ok (take n bs, drop n bs) else falla

pub length-bytes_de : (n : ℕ) → length (bytes_de n) ≡ 4
unfolding bytes_de
length-bytes_de n = refl

-- Four bytes give back the number that was written.
pub leer_entero-bytes_de :
    (n : ℕ) (resto : List ℕ) → n < u32_mod → leer_entero (bytes_de n ++ resto) ≡ ok (n, resto)
unfolding leer_entero bytes_de
leer_entero-bytes_de n resto h =
    let same : n % 256
          + 256 * (n / 256 % 256)
          + 65536 * (n / 65536 % 256)
          + 16777216 * (n / 16777216 % 256)
        ≡ n =
      omega arith in
    ap (λ (k : ℕ). ok (k, resto)) same

module _ {ℓ} {A : Type ℓ} where
  pub take-append : (xs ys : List A) → take (length xs) (xs ++ ys) ≡ xs
  take-append [] ys = refl
  take-append (x ∷ xs) ys = ap (◌∷◌ x) (take-append xs ys)

  pub drop-append : (xs ys : List A) → drop (length xs) (xs ++ ys) ≡ ys
  drop-append [] ys = refl
  drop-append (x ∷ xs) ys = drop-append xs ys

pub leer_bytes-append :
    (n : ℕ) (bs resto : List ℕ) → n ≡ length bs → leer_bytes n (bs ++ resto) ≡ ok (bs, resto)
unfolding leer_bytes
leer_bytes-append n bs resto e = rw (
  e,
  le→leb (length bs) (length (bs ++ resto)) (omega (arith, length-append bs resto)),
  take-append bs resto,
  drop-append bs resto,
)
