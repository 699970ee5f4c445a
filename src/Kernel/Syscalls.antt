-- ===== src/Kernel/Syscalls.antt =====
-- The system calls, which kernel/src/mainkernel.c serves for the thread `hiloEnExec`. A string with no
-- NUL is a fault where it arrives.
use tp_sistemas_operativos.Base.{
  ℕ, ◌+◌, Bool, true, false, not, ◌&&◌, Option, none, some, List, [], ◌∷◌, ◌==◌, ltb, add32,
  if◌then◌else◌,
}
use tp_sistemas_operativos.Base.Resultado.{Resultado, ok, ◌>>=◌, deref}
use tp_sistemas_operativos.Commons.{Listas}
use tp_sistemas_operativos.Cpu.Mmu.{numeros}
use tp_sistemas_operativos.Kernel.Altas.{crear_tcb, iniciar_proceso}
use tp_sistemas_operativos.Kernel.Avisos.{tras_pedido, es_codigo}
use tp_sistemas_operativos.Kernel.Bajas.{
  es_exit, eliminar_de_colas, asignar_al_primero, desbloquear, finalizar_hilo, finalizar_proceso,
}
use tp_sistemas_operativos.Kernel.Colas.{transicion_a_ready, pasar_a_ready}
use tp_sistemas_operativos.Kernel.Estado.{
  Kernel, Tcb, Mutex, Volcado, Entorno, Estado, actualizar, con_hilo, con_proceso, con_recurso,
  pid_del_hilo, es_el_mutex, leido_mutex, apunta_a, remover_hilo,
}
use tp_sistemas_operativos.Utils.OpCode.{OpCode}
use tp_sistemas_operativos.Utils.Recepcion.{
  Lector, recibir_operacion, recibir_un_entero, recibir_una_cadena, recibir_una_cadena_y_un_entero,
  recibir_enteros_y_valor2, cadena_c,
}

-- A read from the socket of the processor.
unfoldable pub de_la_cpu : {A : Type 0} → Kernel → Lector A → Resultado (Kernel × A)
de_la_cpu k lector = do
  (v, s) ← lector k.socket_cpu_dispatch
  ok (record k { socket_cpu_dispatch = s }, v)

-- A string from the processor.
unfoldable pub cadena_de_la_cpu : Kernel → Resultado (Kernel × List ℕ)
unfolding de_la_cpu
cadena_de_la_cpu k = do
  (k', bloque) ← de_la_cpu k recibir_una_cadena
  cadena ← cadena_c bloque
  ok (k', cadena)

-- `hiloEnExec`, with what it points to.
unfoldable pub hilo_actual : Kernel → Resultado (ℕ × Tcb)
hilo_actual k = do a ← deref k.hilo_en_exec; t ← deref (k.hilos a); ok (a, t)

unfoldable pub es_terminado : Estado → Bool
es_terminado Estado.terminado = true
es_terminado _ = false

-- What a thread that blocks waits for.
abbrev pub espera_join : Tcb → Tcb
espera_join t = record t { bloqueado_por_join = true }

abbrev pub espera_io : Tcb → Tcb
espera_io t = record t { bloqueado_por_io = true }

-- The state after the `malloc` of a mutex.
abbrev pub con_mutex_nuevo : Kernel → ℕ → List ℕ → Kernel
con_mutex_nuevo k mid recurso = record k {
  recursos = actualizar k.recursos k.siguiente_direccion (
      some
        (record { mid = mid; nombre_recurso = recurso; hilos_bloqueados = []; tomado_por = none }));
  siguiente_direccion = k.siguiente_direccion + 1;
}

-- `tomadoPor == NULL`
unfoldable pub esta_libre : Mutex → Bool
esta_libre r = elim r.tomado_por [ none ↦ true | some duenio ↦ false ]

module _ (c : Listas) (e : Entorno) where
  open c use {list_add, list_size, list_find, list_remove_by_condition}

  abbrev pub espera_mutex : ℕ → Tcb → Tcb
  espera_mutex m t = record t { mutex_en_espera = list_add t.mutex_en_espera m }

  unfoldable pub proccess_create : Kernel → Resultado Kernel
  unfolding de_la_cpu
  proccess_create k = do
    (k1, (tamanio, prioridad_tid0, bloque)) ← de_la_cpu k recibir_enteros_y_valor2
    recurso ← cadena_c bloque
    iniciar_proceso c e k1 recurso tamanio prioridad_tid0

  unfoldable pub thread_create : Kernel → Resultado Kernel
  unfolding de_la_cpu hilo_actual
  thread_create k = do
    (k1, (bloque, prioridad)) ← de_la_cpu k recibir_una_cadena_y_un_entero
    nombre_archivo ← cadena_c bloque
    (a, t) ← hilo_actual k1
    (k2, nuevo_hilo) ← crear_tcb c e k1 t.proceso_padre prioridad nombre_archivo
    elim nuevo_hilo [ none ↦ ok k2 | some b ↦ do (k3, paso) ← transicion_a_ready c e k2 b; ok k3 ]

  -- The running thread goes to `hilosEnBlock`.
  unfoldable pub bloquear_actual : Kernel → ℕ → (Tcb → Tcb) → Resultado Kernel
  unfolding con_hilo
  bloquear_actual k a marcar =
      con_hilo (record k { hilos_en_block = list_add k.hilos_en_block a }) a
        (λ t. record (marcar t) { estado_del_hilo = Estado.blocked })

  -- The loop of `thread_join` on the threads of the process.
  unfoldable pub joinear : Kernel → ℕ → ℕ → List ℕ → Resultado (Kernel × Bool)
  unfolding bloquear_actual con_hilo es_terminado
  joinear k a tid [] = ok (k, false)
  joinear k a tid (b ∷ bs) =
      let siguientes = joinear k a tid bs in
      do
        a_joinear ← deref (k.hilos b)
        if (a_joinear.tid == tid) && not (es_terminado a_joinear.estado_del_hilo)
            then (do
              k1 ← con_hilo k b (λ u. record u { hilo_bloqueado_por_join = some a })
              k2 ← bloquear_actual k1 a espera_join
              ok (k2, true))
            else siguientes

  unfoldable pub thread_join : Kernel → Resultado (Kernel × Bool)
  unfolding de_la_cpu hilo_actual joinear
  thread_join k = do
    (k1, tid) ← de_la_cpu k recibir_un_entero
    (a, t) ← hilo_actual k1
    padre ← deref (k1.procesos t.proceso_padre)
    joinear k1 a tid padre.lista_de_hilos_del_proceso

  -- What `thread_cancel` does with the thread that it took out of the list.
  unfoldable pub cancelar : Kernel → Option ℕ → Resultado Kernel
  unfolding es_terminado
  cancelar k none = ok k
  cancelar k (some b) = do
    u ← deref (k.hilos b)
    if es_terminado u.estado_del_hilo
        then ok k
        else if es_exit u.estado_del_hilo
        then ok k
        else (do k' ← finalizar_hilo c e k b; eliminar_de_colas c e k' b)

  unfoldable pub thread_cancel : Kernel → Resultado Kernel
  unfolding de_la_cpu hilo_actual remover_hilo con_proceso cancelar
  thread_cancel k = do
    (k1, tid) ← de_la_cpu k recibir_un_entero
    (a, t) ← hilo_actual k1
    padre ← deref (k1.procesos t.proceso_padre)
    (a_cancelar, resto) ← remover_hilo c k1 padre.lista_de_hilos_del_proceso tid padre.pid
    k2 ← con_proceso k1 t.proceso_padre (λ q. record q { lista_de_hilos_del_proceso = resto })
    cancelar k2 a_cancelar

  unfoldable pub mutex_create : Kernel → Resultado Kernel
  unfolding cadena_de_la_cpu hilo_actual con_proceso
  mutex_create k = do
    (k1, recurso) ← cadena_de_la_cpu k
    (a, t) ← hilo_actual k1
    padre ← deref (k1.procesos t.proceso_padre)
    con_proceso (con_mutex_nuevo k1 padre.siguiente_mid recurso) t.proceso_padre (λ q. record q {
      siguiente_mid = add32 q.siguiente_mid 1;
      lista_de_mutex_del_proceso = list_add q.lista_de_mutex_del_proceso k1.siguiente_direccion;
    })

  -- The first mutex of a name, as both loops look for it.
  unfoldable pub buscar_recurso : Kernel → List ℕ → List ℕ → Resultado (Option ℕ)
  unfolding es_el_mutex leido_mutex
  buscar_recurso k lista recurso = leido_mutex k (list_find lista (es_el_mutex k recurso))

  -- What `mutex_lock` does with the mutex that it found.
  unfoldable pub tomar : Kernel → ℕ → ℕ → Resultado (Kernel × Bool)
  unfolding esta_libre con_recurso bloquear_actual
  tomar k a m = do
    mutex_aux ← deref (k.recursos m)
    if esta_libre mutex_aux
        then (do k1 ← con_recurso k m (λ r. record r { tomado_por = some a }); ok (k1, false))
        else (do
          k1 ← con_recurso k m (λ r. record r { hilos_bloqueados = list_add r.hilos_bloqueados a })
          k2 ← bloquear_actual k1 a (espera_mutex m)
          ok (k2, true))

  -- A mutex that does not exist ends the thread, which is not said to be blocked.
  unfoldable pub tomar_o_finalizar : Kernel → ℕ → Option ℕ → Resultado (Kernel × Bool)
  unfolding tomar
  tomar_o_finalizar k a none = do k' ← finalizar_hilo c e k a; ok (k', false)
  tomar_o_finalizar k a (some m) = tomar k a m

  unfoldable pub mutex_lock : Kernel → Resultado (Kernel × Bool)
  unfolding cadena_de_la_cpu hilo_actual buscar_recurso tomar_o_finalizar
  mutex_lock k = do
    (k1, recurso) ← cadena_de_la_cpu k
    (a, t) ← hilo_actual k1
    padre ← deref (k1.procesos t.proceso_padre)
    hallado ← buscar_recurso k1 padre.lista_de_mutex_del_proceso recurso
    tomar_o_finalizar k1 a hallado

  -- What `mutex_unlock` does with a mutex that the thread has.
  unfoldable pub soltar : Kernel → ℕ → List ℕ → Resultado Kernel
  unfolding con_recurso asignar_al_primero pid_del_hilo desbloquear
  soltar k m recurso = do
    mutex_aux ← deref (k.recursos m)
    if ltb 0 (list_size mutex_aux.hilos_bloqueados)
        then (do
          (k1, nuevo) ← asignar_al_primero c e k m recurso
          t ← deref (k1.hilos nuevo)
          pid ← pid_del_hilo k1 t
          desbloquear c e k1 t.tid pid)
        else con_recurso k m (λ r. record r { tomado_por = none })

  -- A mutex that does not exist, or that another thread has, ends the thread.
  unfoldable pub soltar_o_finalizar : Kernel → ℕ → List ℕ → Option ℕ → Resultado Kernel
  unfolding apunta_a soltar
  soltar_o_finalizar k a recurso none = finalizar_hilo c e k a
  soltar_o_finalizar k a recurso (some m) = do
    mutex_aux ← deref (k.recursos m)
    if apunta_a mutex_aux.tomado_por a then soltar k m recurso else finalizar_hilo c e k a

  unfoldable pub mutex_unlock : Kernel → Resultado Kernel
  unfolding cadena_de_la_cpu hilo_actual buscar_recurso soltar_o_finalizar
  mutex_unlock k = do
    (k1, recurso) ← cadena_de_la_cpu k
    (a, t) ← hilo_actual k1
    padre ← deref (k1.procesos t.proceso_padre)
    hallado ← buscar_recurso k1 padre.lista_de_mutex_del_proceso recurso
    soltar_o_finalizar k1 a recurso hallado

  -- `dump_memory` up to `sem_post(&copiado)`, which `ejecutar_hilo` waits for.
  unfoldable pub dump_memory : Kernel → Resultado Kernel
  unfolding hilo_actual pid_del_hilo bloquear_actual
  dump_memory k = do
    (a, t) ← hilo_actual k
    pid ← pid_del_hilo k t
    let pedido = numeros OpCode.memory_dump (pid ∷ t.tid ∷ [])
    k1 ← bloquear_actual (tras_pedido k pedido) a (λ t. t)
    ok (record k1 {
      volcados = list_add k1.volcados (record {
        hilo_auxiliar = a;
        tid = t.tid;
        pid = pid;
        conexion = e.memoria k.pedidos pedido;
      });
    })

  -- The rest of it, when the answer is there; `finalizar_proceso` reads from the processor.
  unfoldable pub dump_memory_respuesta : Kernel → Volcado → Resultado Kernel
  unfolding remover_hilo pasar_a_ready es_codigo
  dump_memory_respuesta k v = do
    (respuesta_memoria, s) ← recibir_operacion v.conexion
    (respuesta, s') ← recibir_una_cadena s
    if es_codigo OpCode.dump_memory_ok respuesta_memoria
        then (do
          (hallado, block) ← remover_hilo c k k.hilos_en_block v.tid v.pid
          hilo_auxiliar ← deref hallado
          pasar_a_ready c e (record k { hilos_en_block = block }) hilo_auxiliar)
        else (do t ← deref (k.hilos v.hilo_auxiliar); finalizar_proceso c e k t.proceso_padre)

  unfoldable pub io : Kernel → Resultado Kernel
  unfolding de_la_cpu hilo_actual pid_del_hilo bloquear_actual
  io k = do
    (k1, tiempo_bloqueado) ← de_la_cpu k recibir_un_entero
    (a, t) ← hilo_actual k1
    pid ← pid_del_hilo k1 t
    k2 ← bloquear_actual k1 a espera_io
    ok (record k2 {
      dispositivo_io =
          list_add k2.dispositivo_io
            (record { hilo_atendido = a; tiempo_bloqueado = tiempo_bloqueado });
      sem_io = k2.sem_io + 1;
    })
