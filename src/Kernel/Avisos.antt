-- ===== src/Kernel/Avisos.antt =====
-- What the kernel asks of the memory, each time on a connection of its own: the functions
-- `notificar_a_memoria_...` and `consultar_a_memoria_espacio_disponible` of kernel/src/pcbYtcb.c.
use tp_sistemas_operativos.Base.{
  ℕ, Bool, true, false, Option, none, some, List, [], ◌∷◌, ◌++◌, ◌==◌, ltb, if◌then◌else◌,
}
use tp_sistemas_operativos.Base.Resultado.{Resultado, ok, ◌>>=◌, deref}
use tp_sistemas_operativos.Cpu.Mmu.{numeros}
use tp_sistemas_operativos.Kernel.Estado.{Kernel, Entorno, pid_del_hilo}
use tp_sistemas_operativos.Utils.OpCode.{OpCode, valor}
use tp_sistemas_operativos.Utils.Paquete.{
  crear_paquete, agregar_entero, agregar_cadena, enviar_paquete,
}
use tp_sistemas_operativos.Utils.Recepcion.{recibir_operacion, recibir_una_cadena}

-- A code that arrived, against a constant.
unfoldable pub es_codigo : OpCode → Option ℕ → Bool
es_codigo o none = false
es_codigo o (some n) = n == valor o

-- The bytes of the requests that carry a string.
unfoldable pub pedido_de_hilo : ℕ → ℕ → List ℕ → List ℕ
pedido_de_hilo pid tid archivo = enviar_paquete (
    agregar_cadena (agregar_entero (agregar_entero (crear_paquete OpCode.creacion_de_hilo) pid) tid)
      archivo)

unfoldable pub pedido_de_proceso : ℕ → ℕ → List ℕ → List ℕ
pedido_de_proceso pid tamanio archivo = enviar_paquete (
    agregar_cadena
      (agregar_entero (agregar_entero (crear_paquete OpCode.creacion_de_proceso) pid) tamanio)
      archivo)

-- The kernel after a request to the memory.
abbrev pub tras_pedido : Kernel → List ℕ → Kernel
tras_pedido k pedido = record k { pedidos = k.pedidos ++ (pedido ∷ []) }

module _ (e : Entorno) where
  -- Nothing is waited for, and the function returns true always.
  unfoldable pub notificar_finalizacion_proceso : Kernel → ℕ → Resultado Kernel
  notificar_finalizacion_proceso k p = do
    proceso ← deref (k.procesos p)
    ok (tras_pedido k (numeros OpCode.finalizacion_de_proceso (proceso.pid ∷ [])))

  -- The answer is awaited, and only logged.
  unfoldable pub notificar_finalizacion_hilo : Kernel → ℕ → Resultado Kernel
  unfolding pid_del_hilo
  notificar_finalizacion_hilo k a = do
    t ← deref (k.hilos a)
    pid ← pid_del_hilo k t
    let pedido = numeros OpCode.finalizacion_de_hilo (pid ∷ t.tid ∷ [])
    (respuesta_memoria, s) ← recibir_operacion (e.memoria k.pedidos pedido)
    (respuesta, s') ← recibir_una_cadena s
    ok (tras_pedido k pedido)

  -- The first thread of a process is not announced: the memory makes it with the process.
  unfoldable pub notificar_creacion_hilo : Kernel → ℕ → Resultado (Kernel × Bool)
  unfolding pedido_de_hilo es_codigo
  notificar_creacion_hilo k a = do
    t ← deref (k.hilos a)
    proceso ← deref (k.procesos t.proceso_padre)
    if ltb 1 proceso.siguiente_tid
        then (do
          let pedido = pedido_de_hilo proceso.pid t.tid t.archivo_de_pseudocodigo
          (respuesta_memoria, s) ← recibir_operacion (e.memoria k.pedidos pedido)
          ok (tras_pedido k pedido, es_codigo OpCode.respuesta_creacion_de_hilo respuesta_memoria))
        else ok (k, true)

  unfoldable pub consultar_espacio_disponible : Kernel → ℕ → Resultado (Kernel × Bool)
  unfolding pedido_de_proceso es_codigo
  consultar_espacio_disponible k p = do
    proceso ← deref (k.procesos p)
    let pedido = pedido_de_proceso proceso.pid proceso.tamanio proceso.archivo_de_pseudocodigo
    (respuesta_memoria, s) ← recibir_operacion (e.memoria k.pedidos pedido)
    (respuesta, s') ← recibir_una_cadena s
    ok (tras_pedido k pedido, es_codigo OpCode.confirmacion_proceso_creado respuesta_memoria)
