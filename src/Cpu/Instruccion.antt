-- ===== src/Cpu/Instruccion.antt =====
-- `parsear_instruccion` of cpu/src/mainCPU.c, with what `strtok` and `atoi` of the standard library
-- do in it.
use tp_sistemas_operativos.Base.{
  ℕ, ◌+◌, ◌-◌, ◌*◌, Bool, Option, none, some, List, [], ◌∷◌, ◌==◌, ◌||◌, ◌&&◌, leb, ltb, u32,
  u32_mod, get_elem?, if◌then◌else◌,
}
use tp_sistemas_operativos.Base.Resultado.{Resultado, ok, falla}

-- `t_instruccion`; a field that is NULL is `none`.
pub record Instruccion : Type 0 where
  pub codigo : Option (List ℕ)
  pub par1 : Option (List ℕ)
  pub par2 : Option (List ℕ)
  pub par3 : Option (List ℕ)

abbrev pub con_letra : ℕ → List (List ℕ) → List (List ℕ)
con_letra x [] = (x ∷ []) ∷ []
con_letra x (w ∷ ws) = (x ∷ w) ∷ ws

-- The pieces between the spaces, the empty ones included.
unfoldable pub separar : List ℕ → List (List ℕ)
separar [] = [] ∷ []
separar (x ∷ xs) = let rest = separar xs in if x == 32 then [] ∷ rest else con_letra x rest

abbrev pub no_vacios : List (List ℕ) → List (List ℕ)
no_vacios [] = []
no_vacios ([] ∷ ws) = no_vacios ws
no_vacios ((x ∷ w) ∷ ws) = (x ∷ w) ∷ no_vacios ws

-- What successive calls of `strtok` with the delimiter " " return.
unfoldable pub tokens : List ℕ → List (List ℕ)
unfolding separar
tokens texto = no_vacios (separar texto)

unfoldable pub parsear_instruccion : List ℕ → Instruccion
unfolding tokens
parsear_instruccion instruccion_a_ejecutar =
    let ts = tokens instruccion_a_ejecutar in
    record {
      codigo = get_elem? ts 0;
      par1 = get_elem? ts 1;
      par2 = get_elem? ts 2;
      par3 = get_elem? ts 3;
    }

-- `isspace`
abbrev pub es_espacio : ℕ → Bool
es_espacio x = (x == 32) || (leb 9 x && leb x 13)

unfoldable pub sin_espacios : List ℕ → List ℕ
sin_espacios [] = []
sin_espacios (x ∷ xs) = let rest = sin_espacios xs in if es_espacio x then rest else x ∷ xs

-- The number of the leading digits, behind those already read.
unfoldable pub digitos : ℕ → List ℕ → ℕ
digitos n [] = n
digitos n (x ∷ xs) =
    let rest = digitos (10 * n + (x - 48)) xs in if leb 48 x && leb x 57 then rest else n

unfoldable pub negativo : ℕ → Resultado ℕ
negativo n = if leb n 2147483648 then ok (u32 (u32_mod - n)) else falla

unfoldable pub positivo : ℕ → Resultado ℕ
positivo n = if ltb n 2147483648 then ok n else falla

-- A number with an optional sign.
unfoldable pub con_signo : List ℕ → Resultado ℕ
unfolding digitos negativo positivo
con_signo [] = positivo 0
con_signo (x ∷ xs) =
    if x == 45
    then negativo (digitos 0 xs)
    else (if x == 43 then positivo (digitos 0 xs) else positivo (digitos 0 (x ∷ xs)))

-- `atoi`, as the bit pattern of its `int`; a number that is no `int` is undefined, and so is NULL.
unfoldable pub atoi : Option (List ℕ) → Resultado ℕ
unfolding sin_espacios con_signo
atoi none = falla
atoi (some texto) = con_signo (sin_espacios texto)
