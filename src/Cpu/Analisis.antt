-- ===== src/Cpu/Analisis.antt =====
-- The lines of an instruction file and the fields that `parsear_instruccion` of cpu/src/mainCPU.c
-- takes from them.
use tp_sistemas_operativos.Base.{
  ℕ, ◌≡◌, ◌≢◌, refl, ap, ◌∙◌, List, [], ◌∷◌, ◌++◌, arith, All, get_elem?,
}
use tp_sistemas_operativos.Cpu.Instruccion.{separar, no_vacios, tokens, parsear_instruccion}

-- A word: at least one character, and no space.
abbrev pub EsPalabra : List ℕ → Type 0
EsPalabra w = (w ≢ []) × All (λ x. x ≢ 32) w

-- The words with one space between each two.
unfoldable pub unir : List (List ℕ) → List ℕ
unir [] = []
unir (w ∷ []) = w
unir (w ∷ v ∷ ws) = w ++ (32 ∷ unir (v ∷ ws))

separar-palabra : (w : List ℕ) → All (λ x. x ≢ 32) w → separar w ≡ w ∷ []
unfolding separar
separar-palabra [] h = refl
separar-palabra (x ∷ w) h = ground (arith, h.0, separar-palabra w h.1)

separar-espacio :
    (w resto : List ℕ) → All (λ x. x ≢ 32) w → separar (w ++ (32 ∷ resto)) ≡ w ∷ separar resto
unfolding separar
separar-espacio [] resto h = refl
separar-espacio (x ∷ w) resto h = ground (arith, h.0, separar-espacio w resto h.1)

no_vacios-palabra :
    (w : List ℕ) (ws : List (List ℕ)) → w ≢ [] → no_vacios (w ∷ ws) ≡ w ∷ no_vacios ws
no_vacios-palabra [] ws h = absurd (h refl)
no_vacios-palabra (x ∷ w) ws h = refl

tokens-unir : (ws : List (List ℕ)) → All EsPalabra ws → tokens (unir ws) ≡ ws
unfolding tokens unir separar
tokens-unir [] h = refl
tokens-unir (w ∷ []) h = rw (separar-palabra w h.0.1) (no_vacios-palabra w [] h.0.0)
tokens-unir (w ∷ v ∷ ws) h =
    rw (separar-espacio w (unir (v ∷ ws)) h.0.1)
      (no_vacios-palabra w (separar (unir (v ∷ ws))) h.0.0 ∙ ap (◌∷◌ w) (tokens-unir (v ∷ ws) h.1))

-- A line made of words with one space between each two is parsed into its first word as the code and
-- the next three as the parameters; a field with no word for it is NULL.
pub parsear_instruccion-unir :
    (ws : List (List ℕ))
    → All EsPalabra ws
    → parsear_instruccion (unir ws) ≡ record {
      codigo = get_elem? ws 0;
      par1 = get_elem? ws 1;
      par2 = get_elem? ws 2;
      par3 = get_elem? ws 3;
    }
unfolding parsear_instruccion
parsear_instruccion-unir ws h = rw (tokens-unir ws h)
