-- ===== src/Utils/Cadenas.antt =====
-- The messages that carry strings, from `agregar_cadena` to the function that receives them.
use tp_sistemas_operativos.Base.{
  ℕ, ◌+◌, ◌<◌, ◌≡◌, refl, sym, ap, ◌∙◌, some, List, [], ◌++◌, arith, append_assoc, append-nil,
  length, u32_mod, length-append,
}
use tp_sistemas_operativos.Base.Resultado.{ok}
use tp_sistemas_operativos.Utils.Bytes.{
  bytes_de, leer_entero, leer_bytes, length-bytes_de, leer_entero-bytes_de, leer_bytes-append,
}
use tp_sistemas_operativos.Utils.OpCode.{OpCode, valor}
use tp_sistemas_operativos.Utils.Paquete.{
  Paquete, crear_paquete, agregar_a_paquete, agregar_entero, agregar_cadena, con_nul,
  enviar_paquete, enviar_respuesta,
}
use tp_sistemas_operativos.Utils.Recepcion.{
  recibir_operacion, recibir_una_cadena, recibir_una_cadena_y_un_entero, recibir_enteros_y_valor2,
  recibir_dos_cadenas,
}
use tp_sistemas_operativos.Utils.Viaje.{
  recibir_operacion-enviar_paquete, paquete_de, cuerpo, cadena_de, agregar_a_paquete-paquete_de,
  agregar_entero-paquete_de, agregar_cadena-paquete_de, length-con_nul, recibir_buffer2-cuerpo,
}
use tp_sistemas_operativos.Utils.Mensajes.{recibir, recibir-enviar_paquete}

module _ (cadena : List ℕ) where
  pub length-cadena_de : length (cadena_de cadena) ≡ length cadena + 5
  length-cadena_de = omega (
    arith,
    length-append (bytes_de (length cadena + 1)) (con_nul cadena),
    length-bytes_de (length cadena + 1),
    length-con_nul cadena,
  )

  -- The size in front of a string, and the string, ahead of more bytes of the buffer.
  tamanio-cadena_de :
      (mas : List ℕ)
      → length cadena + 5 < 2147483648
      → leer_entero (cadena_de cadena ++ mas) ≡ ok (length cadena + 1, con_nul cadena ++ mas)
  tamanio-cadena_de mas h =
      rw (append_assoc (bytes_de (length cadena + 1)) (con_nul cadena) mas)
        (leer_entero-bytes_de (length cadena + 1) (con_nul cadena ++ mas) (omega arith))

  bloque-con_nul :
      (mas : List ℕ)
      → leer_bytes (length cadena + 1) (con_nul cadena ++ mas) ≡ ok (con_nul cadena, mas)
  bloque-con_nul mas =
      leer_bytes-append (length cadena + 1) (con_nul cadena) mas (sym (length-con_nul cadena))

module _ (cadena : List ℕ) (corta : length cadena + 5 < 2147483648) where
  tamanio_final : leer_entero (cadena_de cadena) ≡ ok (length cadena + 1, con_nul cadena)
  tamanio_final = leer_entero-bytes_de (length cadena + 1) (con_nul cadena) (omega arith)

  bloque_final : leer_bytes (length cadena + 1) (con_nul cadena) ≡ ok (con_nul cadena, [])
  bloque_final =
      ap (leer_bytes (length cadena + 1)) (sym (append-nil (con_nul cadena)))
      ∙ bloque-con_nul cadena []

  pub una_cadena-cuerpo :
      (resto : List ℕ)
      → recibir_una_cadena (cuerpo (cadena_de cadena) ++ resto) ≡ ok (con_nul cadena, resto)
  unfolding recibir_una_cadena
  una_cadena-cuerpo resto = rw (
    recibir_buffer2-cuerpo (cadena_de cadena) resto (rw (length-cadena_de cadena) corta),
    tamanio_final,
    bloque_final,
  )

enviar_respuesta-paquete_de :
    (o : OpCode) (cadena : List ℕ)
    → length cadena + 5 < u32_mod
    → enviar_respuesta cadena o ≡ enviar_paquete (paquete_de o (cadena_de cadena))
unfolding enviar_respuesta
enviar_respuesta-paquete_de o cadena h =
    unfold crear_paquete in ap enviar_paquete (agregar_cadena-paquete_de o [] cadena (omega arith))

-- The code of an answer, and what is left to read.
pub recibir_operacion-enviar_respuesta :
    (o : OpCode) (cadena resto : List ℕ)
    → length cadena + 5 < u32_mod
    → recibir_operacion (enviar_respuesta cadena o ++ resto)
      ≡ ok (some (valor o), cuerpo (cadena_de cadena) ++ resto)
recibir_operacion-enviar_respuesta o cadena resto h =
    rw (enviar_respuesta-paquete_de o cadena h)
      (recibir_operacion-enviar_paquete o (cadena_de cadena) resto)

-- An answer of a text shorter than 2 ^ 31 - 5 bytes arrives as its code and the text with its NUL, and
-- what follows it stays in the socket.
pub recibir_una_cadena-enviar_respuesta :
    (o : OpCode) (cadena resto : List ℕ)
    → length cadena + 5 < 2147483648
    → recibir recibir_una_cadena (enviar_respuesta cadena o ++ resto)
      ≡ ok ((some (valor o), con_nul cadena), resto)
recibir_una_cadena-enviar_respuesta o cadena resto h =
    rw (enviar_respuesta-paquete_de o cadena (omega arith)) (
      recibir-enviar_paquete recibir_una_cadena o (cadena_de cadena) resto (con_nul cadena)
        (una_cadena-cuerpo cadena h resto))

-- Two numbers and a string, as in the creation of a process or of a thread.
module _ (o : OpCode) (a b : ℕ) (cadena resto : List ℕ) (ha : a < u32_mod) (hb : b < u32_mod)
    (corta : length cadena + 13 < 2147483648) where
  stream_de_creacion : List ℕ
  stream_de_creacion = (bytes_de a ++ bytes_de b) ++ cadena_de cadena

  length-enteros_y_valor2 : length stream_de_creacion ≡ length cadena + 13
  unfolding stream_de_creacion
  length-enteros_y_valor2 = omega (
    arith,
    length-append (bytes_de a ++ bytes_de b) (cadena_de cadena),
    length-append (bytes_de a) (bytes_de b),
    length-bytes_de a,
    length-bytes_de b,
    length-cadena_de cadena,
  )

  enteros_y_valor2-paquete_de :
      agregar_cadena (agregar_entero (agregar_entero (crear_paquete o) a) b) cadena
      ≡ paquete_de o stream_de_creacion
  unfolding crear_paquete stream_de_creacion
  enteros_y_valor2-paquete_de =
      ap (λ (p : Paquete). agregar_cadena (agregar_entero p b) cadena)
        (agregar_entero-paquete_de o [] a (omega arith))
      ∙ ap (λ (p : Paquete). agregar_cadena p cadena)
          (agregar_entero-paquete_de o (bytes_de a) b (rw (length-bytes_de a) (omega arith)))
      ∙ agregar_cadena-paquete_de o (bytes_de a ++ bytes_de b) cadena (
          rw (length-append (bytes_de a) (bytes_de b), length-bytes_de a, length-bytes_de b)
            (omega arith))

  enteros_y_valor2-cuerpo :
      recibir_enteros_y_valor2 (cuerpo stream_de_creacion ++ resto)
      ≡ ok ((a, b, con_nul cadena), resto)
  unfolding recibir_enteros_y_valor2
  enteros_y_valor2-cuerpo =
      rw (recibir_buffer2-cuerpo stream_de_creacion resto (rw length-enteros_y_valor2 corta)) (
        unfold stream_de_creacion in
        rw (
          append_assoc (bytes_de a) (bytes_de b) (cadena_de cadena),
          leer_entero-bytes_de a (bytes_de b ++ cadena_de cadena) ha,
          leer_entero-bytes_de b (cadena_de cadena) hb,
          tamanio_final cadena (omega arith),
          bloque_final cadena (omega arith),
        ))

  -- Two numbers below 2 ^ 32 and then a string shorter than 2 ^ 31 - 13 bytes arrive as the code, the
  -- numbers, and the string with its NUL, and what follows stays in the socket.
  pub recibir_enteros_y_valor2-enviar_paquete :
      recibir recibir_enteros_y_valor2 (
        enviar_paquete
          (agregar_cadena (agregar_entero (agregar_entero (crear_paquete o) a) b) cadena)
        ++ resto)
      ≡ ok ((some (valor o), (a, b, con_nul cadena)), resto)
  recibir_enteros_y_valor2-enviar_paquete = rw enteros_y_valor2-paquete_de (
      recibir-enviar_paquete recibir_enteros_y_valor2 o stream_de_creacion resto
        (a, b, con_nul cadena) enteros_y_valor2-cuerpo)

-- A string and a number, as in the creation of a thread asked for by the processor.
module _ (o : OpCode) (a : ℕ) (cadena resto : List ℕ) (ha : a < u32_mod)
    (corta : length cadena + 9 < 2147483648) where
  stream_de_hilo : List ℕ
  stream_de_hilo = cadena_de cadena ++ bytes_de a

  length-cadena_y_entero : length stream_de_hilo ≡ length cadena + 9
  unfolding stream_de_hilo
  length-cadena_y_entero = omega (
    arith,
    length-append (cadena_de cadena) (bytes_de a),
    length-bytes_de a,
    length-cadena_de cadena,
  )

  cadena_y_entero-paquete_de :
      agregar_entero (agregar_cadena (crear_paquete o) cadena) a ≡ paquete_de o stream_de_hilo
  unfolding crear_paquete stream_de_hilo
  cadena_y_entero-paquete_de =
      ap (λ (p : Paquete). agregar_entero p a) (agregar_cadena-paquete_de o [] cadena (omega arith))
      ∙ agregar_entero-paquete_de o (cadena_de cadena) a
          (rw (length-cadena_de cadena) (omega arith))

  entero_final : leer_entero (bytes_de a) ≡ ok (a, [])
  entero_final = ap leer_entero (sym (append-nil (bytes_de a))) ∙ leer_entero-bytes_de a [] ha

  cadena_y_entero-cuerpo :
      recibir_una_cadena_y_un_entero (cuerpo stream_de_hilo ++ resto)
      ≡ ok ((con_nul cadena, a), resto)
  unfolding recibir_una_cadena_y_un_entero
  cadena_y_entero-cuerpo =
      rw (recibir_buffer2-cuerpo stream_de_hilo resto (rw length-cadena_y_entero (omega arith))) (
        unfold stream_de_hilo in
        rw (
          tamanio-cadena_de cadena (bytes_de a) (omega arith),
          bloque-con_nul cadena (bytes_de a),
          entero_final,
        ))

  -- A string shorter than 2 ^ 31 - 9 bytes and then a number below 2 ^ 32 arrive as the code, the string
  -- with its NUL, and the number, and what follows stays in the socket.
  pub recibir_una_cadena_y_un_entero-enviar_paquete :
      recibir recibir_una_cadena_y_un_entero
        (enviar_paquete (agregar_entero (agregar_cadena (crear_paquete o) cadena) a) ++ resto)
      ≡ ok ((some (valor o), (con_nul cadena, a)), resto)
  recibir_una_cadena_y_un_entero-enviar_paquete = rw cadena_y_entero-paquete_de (
      recibir-enviar_paquete recibir_una_cadena_y_un_entero o stream_de_hilo resto
        (con_nul cadena, a) cadena_y_entero-cuerpo)

-- A string, a size and a block of that size, as in the dump of a process's memory.
module _ (o : OpCode) (cadena datos resto : List ℕ)
    (corta : length cadena + length datos + 9 < 2147483648) where
  stream_de_volcado : List ℕ
  stream_de_volcado = (cadena_de cadena ++ bytes_de (length datos)) ++ datos

  length-stream_de_volcado : length stream_de_volcado ≡ length cadena + length datos + 9
  unfolding stream_de_volcado
  length-stream_de_volcado = omega (
    arith,
    length-append (cadena_de cadena ++ bytes_de (length datos)) datos,
    length-append (cadena_de cadena) (bytes_de (length datos)),
    length-bytes_de (length datos),
    length-cadena_de cadena,
  )

  volcado-paquete_de :
      agregar_a_paquete
        (agregar_entero (agregar_cadena (crear_paquete o) cadena) (length datos))
        datos
        (length datos)
      ≡ paquete_de o stream_de_volcado
  unfolding crear_paquete stream_de_volcado
  volcado-paquete_de =
      ap (λ (p : Paquete). agregar_a_paquete (agregar_entero p (length datos)) datos (length datos))
        (agregar_cadena-paquete_de o [] cadena (omega arith))
      ∙ ap (λ (p : Paquete). agregar_a_paquete p datos (length datos))
          (agregar_entero-paquete_de o (cadena_de cadena) (length datos)
            (rw (length-cadena_de cadena) (omega arith)))
      ∙ agregar_a_paquete-paquete_de o (cadena_de cadena ++ bytes_de (length datos)) datos
          (length datos) refl
          (rw
            (
              length-append (cadena_de cadena) (bytes_de (length datos)),
              length-bytes_de (length datos),
              length-cadena_de cadena,
            )
            (omega arith))

  bloque_ultimo : leer_bytes (length datos) datos ≡ ok (datos, [])
  bloque_ultimo =
      ap (leer_bytes (length datos)) (sym (append-nil datos))
      ∙ leer_bytes-append (length datos) datos [] refl

  volcado-cuerpo :
      recibir_dos_cadenas (cuerpo stream_de_volcado ++ resto)
      ≡ ok ((con_nul cadena, length datos, datos), resto)
  unfolding recibir_dos_cadenas
  volcado-cuerpo =
      rw (recibir_buffer2-cuerpo stream_de_volcado resto (rw length-stream_de_volcado corta)) (
        unfold stream_de_volcado in
        rw (
          append_assoc (cadena_de cadena) (bytes_de (length datos)) datos,
          tamanio-cadena_de cadena (bytes_de (length datos) ++ datos) (omega arith),
          bloque-con_nul cadena (bytes_de (length datos) ++ datos),
          leer_entero-bytes_de (length datos) datos (omega arith),
          bloque_ultimo,
        ))

  -- A string, and the size and the bytes of a block, together shorter than 2 ^ 31 - 9 bytes, arrive as
  -- the code, the string with its NUL, the size and the block, and what follows stays in the socket.
  pub recibir_dos_cadenas-enviar_paquete :
      recibir recibir_dos_cadenas (
        enviar_paquete (
          agregar_a_paquete
            (agregar_entero (agregar_cadena (crear_paquete o) cadena) (length datos))
            datos
            (length datos))
        ++ resto)
      ≡ ok ((some (valor o), (con_nul cadena, length datos, datos)), resto)
  recibir_dos_cadenas-enviar_paquete = rw volcado-paquete_de (
      recibir-enviar_paquete recibir_dos_cadenas o stream_de_volcado resto
        (con_nul cadena, length datos, datos) volcado-cuerpo)
