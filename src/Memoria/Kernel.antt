-- ===== src/Memoria/Kernel.antt =====
-- `atender_cliente` of mainMemoria.c: one request of the kernel on a connection of its own, from its
-- bytes to the new state and the bytes of the answer. The dump reaches the filesystem module and the
-- clock through parameters.
use tp_sistemas_operativos.Base.{
  ℕ, Option, none, some, List, [], ◌++◌, codes, strcmp_eq, ◌==◌, add32, sub32, modify_p,
  if◌then◌else◌,
}
use tp_sistemas_operativos.Base.Resultado.{Resultado, ok, salir, ◌>>=◌, deref}
use tp_sistemas_operativos.Commons.{Listas}
use tp_sistemas_operativos.Memoria.Hilos.{crear_hilo}
use tp_sistemas_operativos.Memoria.Huecos.{crear_hueco, consolidar_huecos_libres_aledanios}
use tp_sistemas_operativos.Memoria.Procesos.{
  Memoria, Configuracion, Respuesta, tiene_el_mismo_pid, crear_proceso, obtener_proceso,
  eliminar_proceso_de_la_lista, eliminar_tid_de_la_lista, leer_memoria,
}
use tp_sistemas_operativos.Utils.OpCode.{OpCode, valor, constante}
use tp_sistemas_operativos.Utils.Paquete.{
  Paquete, crear_paquete, agregar_a_paquete, agregar_entero, agregar_cadena, enviar_paquete,
  enviar_respuesta,
}
use tp_sistemas_operativos.Utils.Recepcion.{
  recibir_operacion, recibir_un_entero, recibir_dos_enteros, recibir_enteros_y_valor2,
  recibir_una_cadena, cadena_c,
}

-- What the dump asks of the rest of the world: the time as text, a number as text (`string_itoa`),
-- and the bytes that the filesystem module answers to the bytes of a request.
pub record Entorno : Type 0 where
  pub timestamp : List ℕ
  pub string_itoa : ℕ → List ℕ
  pub filesystem : List ℕ → List ℕ

-- `assert(recibir_operacion(...) == RESPUESTA_CREACION_DE_ARCHIVOS)`, and the rest.
unfoldable pub esperar_respuesta : Option ℕ → Resultado Respuesta → Resultado Respuesta
esperar_respuesta none resto = salir
esperar_respuesta (some n) resto =
    if n == valor OpCode.respuesta_creacion_de_archivos then resto else salir

abbrev pub responder : Memoria × Respuesta → Memoria × List ℕ
responder (m, (texto, codigo)) = (m, enviar_respuesta texto codigo)

module _ (c : Listas) (cfg : Configuracion) where
  open c use {list_add}

  -- case FINALIZACION_DE_PROCESO; nothing is sent back.
  unfoldable pub finalizacion_de_proceso : Memoria → ℕ → Resultado Memoria
  finalizacion_de_proceso m pid = do
    let (hallado, restantes) = eliminar_proceso_de_la_lista c pid m.lista_de_procesos
    proceso ← deref hallado
    ok (record m {
      huecos_libres =
          if strcmp_eq cfg.esquema (codes "DINAMICAS")
          then consolidar_huecos_libres_aledanios c proceso.base proceso.limite m.huecos_libres
          else crear_hueco c proceso.base proceso.limite m.huecos_libres;
      lista_de_procesos = restantes;
    })

  -- case CREACION_DE_HILO
  unfoldable pub creacion_de_hilo : Memoria → ℕ → ℕ → List ℕ → Resultado (Memoria × Respuesta)
  creacion_de_hilo m pid tid_a_buscar nombre_archivo = do
    tid ← crear_hilo cfg.archivos cfg.path_instrucciones nombre_archivo tid_a_buscar
    proceso ← deref (obtener_proceso c pid m.lista_de_procesos)
    ok (
      record m {
        lista_de_procesos =
            modify_p (tiene_el_mismo_pid pid) (λ p. record p { tids = list_add p.tids tid })
              m.lista_de_procesos;
      },
      (codes "OK", OpCode.respuesta_creacion_de_hilo),
    )

  -- case FINALIZACION_DE_HILO; a thread that is not there is passed over.
  unfoldable pub finalizacion_de_hilo : Memoria → ℕ → ℕ → Resultado (Memoria × Respuesta)
  finalizacion_de_hilo m pid tid_a_buscar = do
    proceso ← deref (obtener_proceso c pid m.lista_de_procesos)
    ok (
      record m {
        lista_de_procesos =
            modify_p (tiene_el_mismo_pid pid)
              (λ p. record p { tids = (eliminar_tid_de_la_lista c p.tids tid_a_buscar).1 })
              m.lista_de_procesos;
      },
      (codes "OK", OpCode.respuesta_finalizacion_de_hilo),
    )

  -- "<pid>-<tid>-<timestamp>.dmp"
  unfoldable pub nombre_del_archivo_fs : Entorno → ℕ → ℕ → List ℕ
  nombre_del_archivo_fs e pid tid =
      codes "<"
      ++ (e.string_itoa pid
          ++ (codes ">-<"
              ++ (e.string_itoa tid ++ (codes ">-<" ++ (e.timestamp ++ codes ">.dmp")))))

  -- The request to the filesystem: the name, the size and the bytes.
  unfoldable pub pedido_de_volcado : List ℕ → ℕ → List ℕ → Paquete
  pedido_de_volcado nombre tamanio datos =
      agregar_a_paquete
        (agregar_entero (agregar_cadena (crear_paquete OpCode.creacion_de_archivos) nombre) tamanio)
        datos tamanio

  -- case MEMORY_DUMP: `assert` on the answer's code ends the module.
  unfoldable pub memory_dump : Entorno → Memoria → ℕ → ℕ → Resultado Respuesta
  memory_dump e m pid tid_a_buscar = do
    proceso ← deref (obtener_proceso c pid m.lista_de_procesos)
    let tamanio_del_proceso = add32 (sub32 proceso.limite proceso.base) 1
    datos_fs ← leer_memoria m.espacio proceso.base tamanio_del_proceso
    let paquete =
        pedido_de_volcado (nombre_del_archivo_fs e pid tid_a_buscar) tamanio_del_proceso datos_fs
    (codigo, s) ← recibir_operacion (e.filesystem (enviar_paquete paquete))
    esperar_respuesta codigo (do
      (respuesta, s') ← recibir_una_cadena s
      texto ← cadena_c respuesta
      ok (
          if strcmp_eq texto (codes "OK")
          then (codes "OK", OpCode.dump_memory_ok)
          else (codes "ERROR", OpCode.dump_memory_oknt)))

  -- The `switch` of `atender_cliente`, on the constant that was received.
  unfoldable pub atender_codigo :
      Entorno → Memoria → Option OpCode → List ℕ → Resultado (Memoria × List ℕ)
  atender_codigo e m (some OpCode.creacion_de_proceso) s = do
    ((pid, tamanio_proceso, valor_recibido), s') ← recibir_enteros_y_valor2 s
    nombre_del_archivo ← cadena_c valor_recibido
    r ← crear_proceso c cfg m pid tamanio_proceso nombre_del_archivo
    ok (responder r)
  atender_codigo e m (some OpCode.finalizacion_de_proceso) s = do
    (pid, s') ← recibir_un_entero s
    m' ← finalizacion_de_proceso m pid
    ok (m', [])
  atender_codigo e m (some OpCode.creacion_de_hilo) s = do
    ((pid, tid_a_buscar, valor_recibido), s') ← recibir_enteros_y_valor2 s
    nombre_archivo ← cadena_c valor_recibido
    r ← creacion_de_hilo m pid tid_a_buscar nombre_archivo
    ok (responder r)
  atender_codigo e m (some OpCode.finalizacion_de_hilo) s = do
    ((pid, tid_a_buscar), s') ← recibir_dos_enteros s
    r ← finalizacion_de_hilo m pid tid_a_buscar
    ok (responder r)
  atender_codigo e m (some OpCode.memory_dump) s = do
    ((pid, tid_a_buscar), s') ← recibir_dos_enteros s
    r ← memory_dump e m pid tid_a_buscar
    ok (responder (m, r))
  atender_codigo e m _ s = salir

  unfoldable pub atender_cliente : Entorno → Memoria → List ℕ → Resultado (Memoria × List ℕ)
  unfolding atender_codigo
  atender_cliente e m socket = do
    (codigo, s) ← recibir_operacion socket
    atender_codigo e m (constante codigo) s
