-- ===== src/Pruebas/DeUtils.antt =====
-- The messages of utils/src/utils/serializacion.c on concrete values.
use tp_sistemas_operativos.Base.{◌≡◌, some, [], ◌∷◌, ◌++◌, arith, codes}
use tp_sistemas_operativos.Base.Resultado.{ok}
use tp_sistemas_operativos.Utils.Cadenas.{
  recibir_una_cadena-enviar_respuesta, recibir_enteros_y_valor2-enviar_paquete,
  recibir_una_cadena_y_un_entero-enviar_paquete, recibir_dos_cadenas-enviar_paquete,
}
use tp_sistemas_operativos.Utils.Mensajes.{recibir, recibir_enteros-enviar_paquete}
use tp_sistemas_operativos.Utils.OpCode.{OpCode, valor}
use tp_sistemas_operativos.Utils.Paquete.{
  crear_paquete, agregar_a_paquete, agregar_entero, agregar_cadena, con_nul, enviar_paquete,
  enviar_respuesta,
}
use tp_sistemas_operativos.Utils.Recepcion.{
  recibir_un_entero, recibir_dos_enteros, recibir_tres_enteros, recibir_cuatro_enteros,
  recibir_una_cadena, recibir_una_cadena_y_un_entero, recibir_enteros_y_valor2, recibir_dos_cadenas,
}

recibir_una_cadena-enviar_respuesta_example :
    recibir recibir_una_cadena
      (enviar_respuesta (codes "OK") OpCode.contexto_actualizado ++ (7 ∷ []))
    ≡ ok ((some (valor OpCode.contexto_actualizado), con_nul (codes "OK")), 7 ∷ [])
recibir_una_cadena-enviar_respuesta_example =
    recibir_una_cadena-enviar_respuesta OpCode.contexto_actualizado (codes "OK") (7 ∷ [])
      (omega arith)

recibir_enteros_y_valor2-enviar_paquete_example :
    recibir recibir_enteros_y_valor2 (
      enviar_paquete (
        agregar_cadena
          (agregar_entero (agregar_entero (crear_paquete OpCode.creacion_de_proceso) 3) 4294967295)
          (codes "plani"))
      ++ [])
    ≡ ok ((some (valor OpCode.creacion_de_proceso), (3, 4294967295, con_nul (codes "plani"))), [])
recibir_enteros_y_valor2-enviar_paquete_example =
    recibir_enteros_y_valor2-enviar_paquete OpCode.creacion_de_proceso 3 4294967295 (codes "plani")
      [] (omega arith) (omega arith) (omega arith)

recibir_una_cadena_y_un_entero-enviar_paquete_example :
    recibir recibir_una_cadena_y_un_entero (
      enviar_paquete
        (agregar_entero (agregar_cadena (crear_paquete OpCode.thread_create) (codes "h1")) 5)
      ++ (1 ∷ []))
    ≡ ok ((some (valor OpCode.thread_create), (con_nul (codes "h1"), 5)), 1 ∷ [])
recibir_una_cadena_y_un_entero-enviar_paquete_example =
    recibir_una_cadena_y_un_entero-enviar_paquete OpCode.thread_create 5 (codes "h1") (1 ∷ [])
      (omega arith) (omega arith)

recibir_dos_cadenas-enviar_paquete_example :
    recibir recibir_dos_cadenas (
      enviar_paquete (
        agregar_a_paquete
          (agregar_entero
            (agregar_cadena (crear_paquete OpCode.creacion_de_archivos) (codes "d"))
            2)
          (8 ∷ 9 ∷ [])
          2)
      ++ [])
    ≡ ok ((some (valor OpCode.creacion_de_archivos), (con_nul (codes "d"), 2, 8 ∷ 9 ∷ [])), [])
recibir_dos_cadenas-enviar_paquete_example =
    recibir_dos_cadenas-enviar_paquete OpCode.creacion_de_archivos (codes "d") (8 ∷ 9 ∷ []) []
      (omega arith)

recibir_enteros-enviar_paquete_example :
    (recibir recibir_un_entero
        (enviar_paquete (agregar_entero (crear_paquete OpCode.write_mem) 1) ++ [])
      ≡ ok ((some (valor OpCode.write_mem), 1), []))
    × (recibir recibir_dos_enteros (
          enviar_paquete (agregar_entero (agregar_entero (crear_paquete OpCode.write_mem) 1) 2)
          ++ [])
        ≡ ok ((some (valor OpCode.write_mem), (1, 2)), []))
    × (recibir recibir_tres_enteros (
          enviar_paquete (
            agregar_entero
              (agregar_entero (agregar_entero (crear_paquete OpCode.write_mem) 1) 2)
              300)
          ++ [])
        ≡ ok ((some (valor OpCode.write_mem), (1, 2, 300)), []))
    × (recibir recibir_cuatro_enteros (
          enviar_paquete (
            agregar_entero
              (agregar_entero
                (agregar_entero (agregar_entero (crear_paquete OpCode.write_mem) 1) 2)
                300)
              4294967295)
          ++ [])
        ≡ ok ((some (valor OpCode.write_mem), (1, 2, 300, 4294967295)), []))
recibir_enteros-enviar_paquete_example =
    recibir_enteros-enviar_paquete 1 2 300 4294967295 (omega arith) (omega arith) (omega arith)
      (omega arith) OpCode.write_mem []
