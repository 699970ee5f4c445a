-- ===== src/Utils/Mensajes.antt =====
-- Whole messages: each kind that the modules send, built field by field, against the function that
-- receives it.
use tp_sistemas_operativos.Base.{
  ℕ, ◌+◌, ◌*◌, ◌≤◌, ◌<◌, ◌≡◌, refl, sym, ap, ◌∙◌, Option, some, List, [], ◌∷◌, ◌++◌, arith,
  append_assoc, append-nil, length, u32_mod, length-append,
}
use tp_sistemas_operativos.Base.Resultado.{ok, ◌>>=◌}
use tp_sistemas_operativos.Utils.Bytes.{bytes_de, length-bytes_de, leer_entero-bytes_de}
use tp_sistemas_operativos.Utils.OpCode.{OpCode, valor}
use tp_sistemas_operativos.Utils.Paquete.{Paquete, crear_paquete, agregar_entero, enviar_paquete}
use tp_sistemas_operativos.Utils.Recepcion.{
  Lector, recibir_operacion, recibir_buffer2, recibir_un_entero, recibir_dos_enteros,
  recibir_tres_enteros, recibir_cuatro_enteros,
}
use tp_sistemas_operativos.Utils.Viaje.{
  paquete_de, cuerpo, agregar_entero-paquete_de, recibir_operacion-enviar_paquete,
  recibir_buffer2-cuerpo,
}

-- The code of a message, and then its body by the reader given.
abbrev pub recibir : {A : Type 0} → Lector A → Lector (Option ℕ × A)
recibir lector socket = do
  (codigo, s) ← recibir_operacion socket
  (v, resto) ← lector s
  ok ((codigo, v), resto)

-- One `agregar_a_paquete` of a number after the other.
abbrev pub agregar_enteros : Paquete → List ℕ → Paquete
agregar_enteros p [] = p
agregar_enteros p (n ∷ ns) = agregar_enteros (agregar_entero p n) ns

abbrev pub bytes_de_todos : List ℕ → List ℕ
bytes_de_todos [] = []
bytes_de_todos (n ∷ ns) = bytes_de n ++ bytes_de_todos ns

pub length-bytes_de_todos : (ns : List ℕ) → length (bytes_de_todos ns) ≡ 4 * length ns
length-bytes_de_todos [] = refl
length-bytes_de_todos (n ∷ ns) = omega (
  arith,
  length-append (bytes_de n) (bytes_de_todos ns),
  length-bytes_de n,
  length-bytes_de_todos ns,
)

pub agregar_enteros-paquete_de :
    (o : OpCode) (s ns : List ℕ)
    → length s + 4 * length ns < u32_mod
    → agregar_enteros (paquete_de o s) ns ≡ paquete_de o (s ++ bytes_de_todos ns)
agregar_enteros-paquete_de o s [] h = ap (paquete_de o) (sym (append-nil s))
agregar_enteros-paquete_de o s (n ∷ ns) h =
    ap (λ (p : Paquete). agregar_enteros p ns) (agregar_entero-paquete_de o s n (omega arith))
    ∙ agregar_enteros-paquete_de o (s ++ bytes_de n) ns
        (rw (length-append s (bytes_de n), length-bytes_de n) (omega arith))
    ∙ ap (paquete_de o) (append_assoc s (bytes_de n) (bytes_de_todos ns))

pub recibir-enviar_paquete :
    {A : Type 0} (lector : Lector A) (o : OpCode) (s resto : List ℕ) (v : A)
    → lector (cuerpo s ++ resto) ≡ ok (v, resto)
    → recibir lector (enviar_paquete (paquete_de o s) ++ resto) ≡ ok ((some (valor o), v), resto)
recibir-enviar_paquete lector o s resto v e = rw (recibir_operacion-enviar_paquete o s resto, e)

-- The code of a message of numbers, and what is left to read.
pub recibir_operacion-enteros :
    (o : OpCode) (ns resto : List ℕ)
    → length ns ≤ 13
    → recibir_operacion (enviar_paquete (agregar_enteros (crear_paquete o) ns) ++ resto)
      ≡ ok (some (valor o), cuerpo (bytes_de_todos ns) ++ resto)
unfolding crear_paquete
recibir_operacion-enteros o ns resto h =
    rw (agregar_enteros-paquete_de o [] ns (omega arith))
      (recibir_operacion-enviar_paquete o (bytes_de_todos ns) resto)

-- The body of a message of numbers, ahead of the rest of the socket.
pub recibir_buffer2-enteros :
    (ns resto : List ℕ)
    → length ns ≤ 13
    → recibir_buffer2 (cuerpo (bytes_de_todos ns) ++ resto) ≡ ok (bytes_de_todos ns, resto)
recibir_buffer2-enteros ns resto h =
    recibir_buffer2-cuerpo (bytes_de_todos ns) resto (omega (arith, h, length-bytes_de_todos ns))

-- A message of up to thirteen numbers arrives as its code, and as its reader reads the numbers.
pub recibir-enteros :
    {A : Type 0} (lector : Lector A) (o : OpCode) (ns resto : List ℕ) (v : A)
    → length ns ≤ 13
    → lector (cuerpo (bytes_de_todos ns) ++ resto) ≡ ok (v, resto)
    → recibir lector (enviar_paquete (agregar_enteros (crear_paquete o) ns) ++ resto)
      ≡ ok ((some (valor o), v), resto)
unfolding crear_paquete
recibir-enteros lector o ns resto v h e =
    rw (agregar_enteros-paquete_de o [] ns (omega arith))
      (recibir-enviar_paquete lector o (bytes_de_todos ns) resto v e)

module _ (a b c d : ℕ) (ha : a < u32_mod) (hb : b < u32_mod) (hc : c < u32_mod)
    (hd : d < u32_mod) where
  pub un_entero-cuerpo :
      (resto : List ℕ)
      → recibir_un_entero (cuerpo (bytes_de_todos (a ∷ [])) ++ resto) ≡ ok (a, resto)
  unfolding recibir_un_entero
  un_entero-cuerpo resto =
      rw (recibir_buffer2-enteros (a ∷ []) resto (omega arith), leer_entero-bytes_de a [] ha)

  pub dos_enteros-cuerpo :
      (resto : List ℕ)
      → recibir_dos_enteros (cuerpo (bytes_de_todos (a ∷ b ∷ [])) ++ resto) ≡ ok ((a, b), resto)
  unfolding recibir_dos_enteros
  dos_enteros-cuerpo resto = rw (
    recibir_buffer2-enteros (a ∷ b ∷ []) resto (omega arith),
    leer_entero-bytes_de a (bytes_de b ++ []) ha,
    leer_entero-bytes_de b [] hb,
  )

  pub tres_enteros-cuerpo :
      (resto : List ℕ)
      → recibir_tres_enteros (cuerpo (bytes_de_todos (a ∷ b ∷ c ∷ [])) ++ resto)
        ≡ ok ((a, b, c), resto)
  unfolding recibir_tres_enteros
  tres_enteros-cuerpo resto = rw (
    recibir_buffer2-enteros (a ∷ b ∷ c ∷ []) resto (omega arith),
    leer_entero-bytes_de a (bytes_de b ++ (bytes_de c ++ [])) ha,
    leer_entero-bytes_de b (bytes_de c ++ []) hb,
    leer_entero-bytes_de c [] hc,
  )

  cuatro_enteros-cuerpo :
      (resto : List ℕ)
      → recibir_cuatro_enteros (cuerpo (bytes_de_todos (a ∷ b ∷ c ∷ d ∷ [])) ++ resto)
        ≡ ok ((a, b, c, d), resto)
  unfolding recibir_cuatro_enteros
  cuatro_enteros-cuerpo resto = rw (
    recibir_buffer2-enteros (a ∷ b ∷ c ∷ d ∷ []) resto (omega arith),
    leer_entero-bytes_de a (bytes_de b ++ (bytes_de c ++ (bytes_de d ++ []))) ha,
    leer_entero-bytes_de b (bytes_de c ++ (bytes_de d ++ [])) hb,
    leer_entero-bytes_de c (bytes_de d ++ []) hc,
    leer_entero-bytes_de d [] hd,
  )

  -- A message of one, two, three or four numbers below 2 ^ 32 arrives as its code and those numbers,
  -- whatever the code, and what follows it stays in the socket.
  pub recibir_enteros-enviar_paquete :
      (o : OpCode) (resto : List ℕ)
      → (recibir recibir_un_entero (enviar_paquete (agregar_entero (crear_paquete o) a) ++ resto)
          ≡ ok ((some (valor o), a), resto))
        × (recibir recibir_dos_enteros
              (enviar_paquete (agregar_entero (agregar_entero (crear_paquete o) a) b) ++ resto)
            ≡ ok ((some (valor o), (a, b)), resto))
        × (recibir recibir_tres_enteros (
              enviar_paquete
                (agregar_entero (agregar_entero (agregar_entero (crear_paquete o) a) b) c)
              ++ resto)
            ≡ ok ((some (valor o), (a, b, c)), resto))
        × (recibir recibir_cuatro_enteros (
              enviar_paquete (
                agregar_entero
                  (agregar_entero (agregar_entero (agregar_entero (crear_paquete o) a) b) c)
                  d)
              ++ resto)
            ≡ ok ((some (valor o), (a, b, c, d)), resto))
  recibir_enteros-enviar_paquete o resto = (
    recibir-enteros recibir_un_entero o (a ∷ []) resto a (omega arith) (un_entero-cuerpo resto),
    recibir-enteros recibir_dos_enteros o (a ∷ b ∷ []) resto (a, b) (omega arith)
        (dos_enteros-cuerpo resto),
    recibir-enteros recibir_tres_enteros o (a ∷ b ∷ c ∷ []) resto (a, b, c) (omega arith)
        (tres_enteros-cuerpo resto),
    recibir-enteros recibir_cuatro_enteros o (a ∷ b ∷ c ∷ d ∷ []) resto (a, b, c, d) (omega arith)
        (cuatro_enteros-cuerpo resto),
  )
