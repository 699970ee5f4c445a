-- ===== src/Kernel/Planificacion.antt =====
-- The threads of the kernel module, one round of each loop at a time: `ejecutar_hilo`, the planners,
-- `finalizador_de_hilos`, `atender_io` and `controlar_tiempo_de_ejecucion` of kernel/src/mainkernel.c,
-- and the start. A round begins where `sem_wait` lets it pass.
use tp_sistemas_operativos.Base.{
  ℕ, ◌-◌, Bool, true, false, not, ◌&&◌, Option, none, some, List, [], ◌∷◌, ◌++◌, ◌==◌,
  if◌then◌else◌,
}
use tp_sistemas_operativos.Base.Resultado.{Resultado, ok, falla, ◌>>=◌, deref}
use tp_sistemas_operativos.Commons.{Listas}
use tp_sistemas_operativos.Cpu.Instruccion.{atoi}
use tp_sistemas_operativos.Cpu.Mmu.{numeros}
use tp_sistemas_operativos.Kernel.Altas.{crear_tcb, liberar_tcb, iniciar_proceso}
use tp_sistemas_operativos.Kernel.Avisos.{consultar_espacio_disponible}
use tp_sistemas_operativos.Kernel.Bajas.{finalizar_hilo, finalizar_proceso}
use tp_sistemas_operativos.Kernel.Colas.{
  usamos_multicolas, algoritmo_to_int, transicion_a_ready, elegir_siguiente_fifo,
  elegir_siguiente_prioridad, elegir_siguiente_colas,
}
use tp_sistemas_operativos.Kernel.Estado.{Kernel, Entorno, Estado, con_hilo, pid_del_hilo}
use tp_sistemas_operativos.Kernel.Syscalls.{
  de_la_cpu, hilo_actual, proccess_create, thread_create, thread_join, thread_cancel, mutex_create,
  mutex_lock, mutex_unlock, dump_memory, io,
}
use tp_sistemas_operativos.Utils.OpCode.{OpCode, constante}
use tp_sistemas_operativos.Utils.Recepcion.{
  recibir_operacion, recibir_un_entero, recibir_una_cadena,
}

-- `inicializar_estructuras`, and `main` up to the planner; the bytes are all that the processor will say.
unfoldable pub inicializar_estructuras : List ℕ → Kernel
inicializar_estructuras cpu = record {
  hilos = λ a. none;
  procesos = λ p. none;
  recursos = λ m. none;
  siguiente_direccion = 1;
  siguiente_pid = 0;
  lista_de_procesos_en_sistema = [];
  procesos_en_new = [];
  hilos_en_ready = [];
  hilos_en_block = [];
  hilos_en_exit = [];
  colas_de_ready = [];
  dispositivo_io = [];
  hilo_en_exec = none;
  replanificar = true;
  sem_proceso_en_new = 0;
  sem_hilo_en_exit = 0;
  sem_hilo_en_ready = 0;
  sem_io = 0;
  socket_cpu_dispatch = cpu;
  a_cpu = [];
  a_interrupt = [];
  pedidos = [];
  volcados = [];
  relojes = [];
  solicitud_io = none;
  espera_a_la_cpu = false;
}

abbrev pub replanificando : Bool → Kernel → Kernel
replanificando si k = record k { replanificar = si }

module _ (c : Listas) (e : Entorno) where
  open c use {list_get, list_remove}

  unfoldable pub atender_archivo_inicial : Kernel → List ℕ → List ℕ → Resultado Kernel
  atender_archivo_inicial k ruta tamanio_proceso = do
    tamanio ← atoi (some tamanio_proceso)
    iniciar_proceso c e k ruta tamanio 0

  -- The counter of the quantum starts with the first dispatch after a passage through READY.
  unfoldable pub iniciar_quantum : Kernel → ℕ → Resultado Kernel
  unfolding usamos_multicolas con_hilo pid_del_hilo
  iniciar_quantum k a = do
    t ← deref (k.hilos a)
    if usamos_multicolas e && not t.clock_contando
        then (do
          k1 ← con_hilo k a (λ t. record t { clock_contando = true })
          pid ← pid_del_hilo k t
          ok (record k1 { relojes = (t.tid, pid) ∷ k1.relojes }))
        else ok k

  -- `ejecutar_hilo` up to the answer of the processor.
  unfoldable pub despachar : Kernel → ℕ → Resultado Kernel
  unfolding con_hilo iniciar_quantum pid_del_hilo
  despachar k a = do
    k1 ←
        con_hilo (record k { hilo_en_exec = some a }) a
          (λ t. record t { estado_del_hilo = Estado.execute })
    k2 ← iniciar_quantum k1 a
    t ← deref (k2.hilos a)
    pid ← pid_del_hilo k2 t
    ok (record k2 {
      a_cpu = k2.a_cpu ++ numeros OpCode.process_create (t.tid ∷ pid ∷ t.fin_deq ∷ []);
    })

  -- The `switch` of `ejecutar_hilo`, with what it leaves in `replanificar`.
  unfoldable pub atender_motivo : Kernel → Option OpCode → Resultado Kernel
  unfolding de_la_cpu hilo_actual
  atender_motivo k (some OpCode.process_exit) = do
    (a, t) ← hilo_actual k
    k' ← finalizar_proceso c e k t.proceso_padre
    ok (replanificando true k')
  atender_motivo k (some OpCode.process_create) = do
    k' ← proccess_create c e k
    ok (replanificando false k')
  atender_motivo k (some OpCode.thread_create) = do
    k' ← thread_create c e k
    ok (replanificando false k')
  atender_motivo k (some OpCode.thread_cancel) = do
    k' ← thread_cancel c e k
    ok (replanificando false k')
  atender_motivo k (some OpCode.thread_join) = do
    (k', se_bloqueo) ← thread_join c e k
    ok (replanificando se_bloqueo k')
  atender_motivo k (some OpCode.thread_exit) = do
    (k1, respuesta) ← de_la_cpu k recibir_una_cadena
    a ← deref k1.hilo_en_exec
    k' ← finalizar_hilo c e k1 a
    ok (replanificando true k')
  atender_motivo k (some OpCode.mutex_create) = do
    k' ← mutex_create c e k
    ok (replanificando false k')
  atender_motivo k (some OpCode.mutex_lock) = do
    (k', se_bloqueo) ← mutex_lock c e k
    ok (replanificando se_bloqueo k')
  atender_motivo k (some OpCode.mutex_unlock) = do
    k' ← mutex_unlock c e k
    ok (replanificando false k')
  atender_motivo k (some OpCode.dump_memory) = do
    (k1, respuesta) ← de_la_cpu k recibir_una_cadena
    k' ← dump_memory c e k1
    ok (replanificando true k')
  atender_motivo k (some OpCode.fin_de_quantum) = do
    (k1, tid_recibido) ← de_la_cpu k recibir_un_entero
    a ← deref k1.hilo_en_exec
    (k', paso) ← transicion_a_ready c e k1 a
    ok (replanificando true k')
  atender_motivo k (some OpCode.io) = do k' ← io c e k; ok (replanificando true k')
  atender_motivo k (some OpCode.segmentation_fault) = do
    (k1, tid_recibido) ← de_la_cpu k recibir_operacion
    (a, t) ← hilo_actual k1
    k' ← finalizar_proceso c e k1 t.proceso_padre
    ok (replanificando true k')
  atender_motivo k _ = ok k

  -- `ejecutar_hilo` from the answer of the processor on.
  unfoldable pub atender_respuesta : Kernel → Resultado Kernel
  unfolding de_la_cpu atender_motivo
  atender_respuesta k = do
    (k', motivo_desalojo) ← de_la_cpu k recibir_operacion
    atender_motivo k' (constante motivo_desalojo)

  unfoldable pub ejecutar_hilo : Kernel → Option ℕ → Resultado Kernel
  unfolding despachar atender_respuesta
  ejecutar_hilo k hilo_para_ejecutar = do
    a ← deref hilo_para_ejecutar
    k1 ← despachar k a
    atender_respuesta k1

  -- The `switch` of the planner. With any other algorithm the local it runs was never written.
  unfoldable pub elegir_siguiente : Kernel → Resultado (Kernel × Option ℕ)
  unfolding algoritmo_to_int elegir_siguiente_fifo elegir_siguiente_prioridad elegir_siguiente_colas
  elegir_siguiente k =
      if algoritmo_to_int e == 1
      then ok (elegir_siguiente_fifo c e k)
      else if algoritmo_to_int e == 2
      then elegir_siguiente_colas c e k
      else if algoritmo_to_int e == 3
      then elegir_siguiente_prioridad c e k
      else falla

  -- `cpuLibre` is waited for and posted by this thread alone.
  unfoldable pub planificador_corto_plazo : Kernel → Resultado Kernel
  unfolding elegir_siguiente
  planificador_corto_plazo k =
      if k.replanificar
      then (do
        (k1, hilo) ← elegir_siguiente (record k { sem_hilo_en_ready = k.sem_hilo_en_ready - 1 })
        ejecutar_hilo k1 hilo)
      else ejecutar_hilo k k.hilo_en_exec

  -- A round of the planner up to the wait for the processor.
  unfoldable pub elegir_y_despachar : Kernel → Resultado Kernel
  unfolding elegir_siguiente despachar
  elegir_y_despachar k =
      if k.replanificar
      then (do
        (k1, hilo) ← elegir_siguiente (record k { sem_hilo_en_ready = k.sem_hilo_en_ready - 1 })
        a ← deref hilo
        despachar k1 a)
      else (do a ← deref k.hilo_en_exec; despachar k a)

  unfoldable pub planificador_largo_plazo : Kernel → Resultado Kernel
  planificador_largo_plazo k = do
    let k0 = record k { sem_proceso_en_new = k.sem_proceso_en_new - 1 }
    p ← deref (list_get k0.procesos_en_new 0)
    (k1, hay_espacio) ← consultar_espacio_disponible e k0 p
    if hay_espacio
        then (do
          proceso ← deref (k1.procesos p)
          (k2, hilo) ← crear_tcb c e k1 p proceso.prioridad_tid0 proceso.archivo_de_pseudocodigo
          hilo_principal ← deref hilo
          (k3, paso) ← transicion_a_ready c e k2 hilo_principal
          ok (record k3 { procesos_en_new = (list_remove k3.procesos_en_new 0).1 }))
        else ok k1

  unfoldable pub finalizador_de_hilos : Kernel → Resultado Kernel
  finalizador_de_hilos k = do
    let (hilo, resto) = list_remove k.hilos_en_exit 0
    a ← deref hilo
    liberar_tcb c e (record k { sem_hilo_en_exit = k.sem_hilo_en_exit - 1; hilos_en_exit = resto })
        a

  -- `atender_io` up to `usleep`.
  unfoldable pub atender_io : Kernel → Resultado Kernel
  atender_io k = do
    let (solicitud, resto) = list_remove k.dispositivo_io 0
    solicitud_io ← deref solicitud
    ok (record k {
      sem_io = k.sem_io - 1;
      dispositivo_io = resto;
      solicitud_io = some solicitud_io;
    })

  -- The rest of the round, after the sleep. What `transicion_a_ready` returns is not looked at.
  unfoldable pub atender_io_fin : Kernel → Resultado Kernel
  unfolding con_hilo pid_del_hilo
  atender_io_fin k = do
    solicitud ← deref k.solicitud_io
    k1 ←
        con_hilo (record k { solicitud_io = none }) solicitud.hilo_atendido
          (λ t. record t { bloqueado_por_io = false })
    t ← deref (k1.hilos solicitud.hilo_atendido)
    pid ← pid_del_hilo k1 t
    (k2, paso) ← transicion_a_ready c e k1 solicitud.hilo_atendido
    ok k2

  -- What `controlar_tiempo_de_ejecucion` does with `hiloEnExec` after its sleep.
  unfoldable pub marcar_fin : Kernel → ℕ × ℕ → Option ℕ → Resultado Kernel
  unfolding con_hilo pid_del_hilo
  marcar_fin k reloj none = ok k
  marcar_fin k reloj (some a) = do
    k1 ← con_hilo k a (λ t. record t { fin_deq = 1 })
    t ← deref (k1.hilos a)
    if reloj.0 == t.tid
        then (do
          pid ← pid_del_hilo k1 t
          if (reloj.1 == pid) && t.clock_contando
              then ok (record k1 {
                a_interrupt = k1.a_interrupt ++ numeros OpCode.fin_de_quantum (pid ∷ t.tid ∷ []);
              })
              else ok k1)
        else ok k1

  -- For a counter that was started for the thread and the process of the ids given.
  unfoldable pub controlar_tiempo_de_ejecucion : Kernel → ℕ × ℕ → Resultado Kernel
  unfolding marcar_fin
  controlar_tiempo_de_ejecucion k reloj = marcar_fin k reloj k.hilo_en_exec
