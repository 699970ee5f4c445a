-- ===== src/Kernel/Semaforo/Rondas.antt =====
-- The rounds of the threads of the module, against the semaphores, and the states that can be reached.
use tp_sistemas_operativos.Base.{
  sym, subst, ℕ, ◌+◌, ◌-◌, ◌≤◌, ◌<◌, ◌≡◌, inl, inr, Bool, true, false, not, ◌&&◌, ◌==◌, arith,
  Option, none, some, List, [], ◌∷◌, length, erase_idx, get_elem?,
}
use tp_sistemas_operativos.Base.Resultado.{Resultado, ok, deref, ◌>>=◌, >>=-eq-ok, deref-eq-ok}
use tp_sistemas_operativos.Commons.{Listas}
use tp_sistemas_operativos.Cpu.Instruccion.{atoi}
use tp_sistemas_operativos.Kernel.Altas.{crear_tcb}
use tp_sistemas_operativos.Kernel.Asegura.{
  Asegura, Asegura-bind, Asegura-luego, Asegura-ok, Asegura-if, Asegura-weaken,
}
use tp_sistemas_operativos.Kernel.Avisos.{consultar_espacio_disponible}
use tp_sistemas_operativos.Kernel.Bajas.{finalizar_hilo, finalizar_proceso}
use tp_sistemas_operativos.Kernel.Colas.{transicion_a_ready, usamos_multicolas}
use tp_sistemas_operativos.Kernel.Estado.{Kernel, Entorno, Estado, con_hilo, pid_del_hilo}
use tp_sistemas_operativos.Kernel.Pasos.{
  Paso, despacha, atiende, largo_plazo, finaliza, toma_io, termina_io, responde, vence, Alcanza,
  inicio, sigue,
}
use tp_sistemas_operativos.Kernel.Planificacion.{
  marcar_fin, inicializar_estructuras, atender_archivo_inicial, iniciar_quantum, despachar,
  replanificando, atender_motivo, atender_respuesta, elegir_y_despachar, elegir_siguiente,
  planificador_largo_plazo, finalizador_de_hilos, atender_io, atender_io_fin,
  controlar_tiempo_de_ejecucion,
}
use tp_sistemas_operativos.Kernel.Semaforo.Colas.{
  encolados, Avanza, con_hilo-Avanza, transicion_a_ready-Avanza,
  consultar_espacio_disponible-Avanza, crear_tcb-Avanza, liberar_tcb-Avanza, iniciar_proceso-Avanza,
}
use tp_sistemas_operativos.Kernel.Semaforo.Bajas.{finalizar_hilo-Avanza, finalizar_proceso-Avanza}
use tp_sistemas_operativos.Kernel.Semaforo.Eleccion.{Elegido, elegir_siguiente-Elegido}
use tp_sistemas_operativos.Kernel.Semaforo.Llamadas.{
  de_la_cpu-Avanza, proccess_create-Avanza, thread_create-Avanza, thread_join-Avanza,
  thread_cancel-Avanza, mutex_create-Avanza, mutex_lock-Avanza, mutex_unlock-Avanza,
  dump_memory-Avanza, dump_memory_respuesta-Avanza, io-Avanza,
}
use tp_sistemas_operativos.Kernel.Syscalls.{
  de_la_cpu, hilo_actual, proccess_create, thread_create, thread_join, thread_cancel, mutex_create,
  mutex_lock, mutex_unlock, dump_memory, io,
}
use tp_sistemas_operativos.Utils.OpCode.{OpCode, constante}
use tp_sistemas_operativos.Utils.Recepcion.{
  recibir_operacion, recibir_un_entero, recibir_una_cadena,
}

module _ (c : Listas) (e : Entorno) where
  sacar_primero :
      {A : Type 0} (xs : List A) (a : A)
      → deref (c.list_remove xs 0).0 ≡ ok a
      → length (c.list_remove xs 0).1 + 1 ≡ length xs
  sacar_primero {A} [] a h =
      let nada : deref (get_elem? {A = A} [] 0) ≡ ok a = rw (c.list_remove_lem [] 0) at h in
      absurd (cc)
  sacar_primero (x ∷ xs) a h = rw (c.list_remove_lem (x ∷ xs) 0) (omega arith)

  -- A handler that only sets `replanificar` after it.
  luego_replanifica :
      (si : Bool) (k : Kernel) (m : Resultado Kernel)
      → Asegura (Avanza k) m
      → Asegura (Avanza k) (m >>= λ k'. ok (replanificando si k'))
  luego_replanifica si k m h = Asegura-bind m h λ k' h'. Asegura-ok _ h'

  iniciar_quantum-Avanza : (k : Kernel) (a : ℕ) → Asegura (Avanza k) (iniciar_quantum c e k a)
  unfolding iniciar_quantum
  iniciar_quantum-Avanza k a = Asegura-luego (deref (k.hilos a)) λ t h.
      Asegura-if (usamos_multicolas e && not t.clock_contando)
        (λ si.
          Asegura-bind (con_hilo k a _) (con_hilo-Avanza k a _)
            λ k1 h1. Asegura-luego (pid_del_hilo k t) λ pid h. Asegura-ok _ h1)
        (λ otro. Asegura-ok _ (omega arith))

  despachar-Avanza : (k : Kernel) (a : ℕ) → Asegura (Avanza k) (despachar c e k a)
  unfolding despachar
  despachar-Avanza k a =
      let k0 = record k { hilo_en_exec = some a } in
      Asegura-bind (con_hilo k0 a (λ t. record t { estado_del_hilo = Estado.execute }))
        (con_hilo-Avanza k0 a (λ t. record t { estado_del_hilo = Estado.execute }))
        λ k1 h1. Asegura-bind (iniciar_quantum c e k1 a) (iniciar_quantum-Avanza k1 a) λ k2 h2.
          Asegura-luego (deref (k2.hilos a))
            λ t h. Asegura-luego (pid_del_hilo k2 t) λ pid h. Asegura-ok _ (omega arith)

  atender_motivo-Avanza :
      (k : Kernel) (motivo : Option OpCode) → Asegura (Avanza k) (atender_motivo c e k motivo)
  unfolding atender_motivo
  atender_motivo-Avanza k (some OpCode.process_exit) = Asegura-luego (hilo_actual k) λ (a, t) h.
      luego_replanifica true k (finalizar_proceso c e k t.proceso_padre)
        (finalizar_proceso-Avanza c e k t.proceso_padre)
  atender_motivo-Avanza k (some OpCode.process_create) =
      luego_replanifica false k (proccess_create c e k) (proccess_create-Avanza c e k)
  atender_motivo-Avanza k (some OpCode.thread_create) =
      luego_replanifica false k (thread_create c e k) (thread_create-Avanza c e k)
  atender_motivo-Avanza k (some OpCode.thread_cancel) =
      luego_replanifica false k (thread_cancel c e k) (thread_cancel-Avanza c e k)
  atender_motivo-Avanza k (some OpCode.thread_join) =
      Asegura-bind (thread_join c e k) (thread_join-Avanza c e k) λ (k1, b) h1. Asegura-ok _ h1
  atender_motivo-Avanza k (some OpCode.thread_exit) =
      Asegura-bind (de_la_cpu k recibir_una_cadena) (de_la_cpu-Avanza k recibir_una_cadena)
        λ (k1, r) h1. Asegura-luego (deref k1.hilo_en_exec) λ a h.
          Asegura-bind (finalizar_hilo c e k1 a) (finalizar_hilo-Avanza c e k1 a)
            λ k2 h2. Asegura-ok _ (omega arith)
  atender_motivo-Avanza k (some OpCode.mutex_create) =
      luego_replanifica false k (mutex_create c e k) (mutex_create-Avanza c e k)
  atender_motivo-Avanza k (some OpCode.mutex_lock) =
      Asegura-bind (mutex_lock c e k) (mutex_lock-Avanza c e k) λ (k1, b) h1. Asegura-ok _ h1
  atender_motivo-Avanza k (some OpCode.mutex_unlock) =
      luego_replanifica false k (mutex_unlock c e k) (mutex_unlock-Avanza c e k)
  atender_motivo-Avanza k (some OpCode.dump_memory) =
      Asegura-bind (de_la_cpu k recibir_una_cadena) (de_la_cpu-Avanza k recibir_una_cadena)
        λ (k1, r) h1.
          Asegura-bind (dump_memory c e k1) (dump_memory-Avanza c e k1)
            λ k2 h2. Asegura-ok _ (omega arith)
  atender_motivo-Avanza k (some OpCode.fin_de_quantum) =
      Asegura-bind (de_la_cpu k recibir_un_entero) (de_la_cpu-Avanza k recibir_un_entero)
        λ (k1, r) h1. Asegura-luego (deref k1.hilo_en_exec) λ a h.
          Asegura-bind (transicion_a_ready c e k1 a) (transicion_a_ready-Avanza c e k1 a)
            λ (k2, paso) h2. Asegura-ok _ (omega arith)
  atender_motivo-Avanza k (some OpCode.io) = luego_replanifica true k (io c e k) (io-Avanza c e k)
  atender_motivo-Avanza k (some OpCode.segmentation_fault) =
      Asegura-bind (de_la_cpu k recibir_operacion) (de_la_cpu-Avanza k recibir_operacion)
        λ (k1, r) h1. Asegura-luego (hilo_actual k1) λ (a, t) h.
          Asegura-bind (finalizar_proceso c e k1 t.proceso_padre)
            (finalizar_proceso-Avanza c e k1 t.proceso_padre) λ k2 h2. Asegura-ok _ (omega arith)
  atender_motivo-Avanza k _ = Asegura-ok _ (omega arith)

  atender_respuesta-Avanza : (k : Kernel) → Asegura (Avanza k) (atender_respuesta c e k)
  unfolding atender_respuesta
  atender_respuesta-Avanza k =
      Asegura-bind (de_la_cpu k recibir_operacion) (de_la_cpu-Avanza k recibir_operacion)
        λ (k1, motivo) h1.
          Asegura-weaken (atender_motivo-Avanza k1 (constante motivo)) λ k2 h2. omega arith

  elegir_y_despachar-Avanza :
      (k : Kernel)
      → (k.replanificar ≡ true → 0 < k.sem_hilo_en_ready)
      → Asegura (Avanza k) (elegir_y_despachar c e k)
  unfolding elegir_y_despachar
  elegir_y_despachar-Avanza k paso =
      Asegura-if k.replanificar
        (λ si.
          let k0 = record k { sem_hilo_en_ready = k.sem_hilo_en_ready - 1 } in
          let hay = paso si in
          Asegura-bind (elegir_siguiente c e k0) (elegir_siguiente-Elegido c e k0) λ (k1, hilo) h1.
            Asegura-luego (deref hilo)
              λ a elegido. con_elegido k hay k1 hilo a (deref-eq-ok hilo elegido) h1)
        (λ sigue. Asegura-luego (deref k.hilo_en_exec) λ a h. despachar-Avanza k a)
    where
      con_elegido :
          (k : Kernel)
          → 0 < k.sem_hilo_en_ready
          → (k1 : Kernel) (hilo : Option ℕ) (a : ℕ) → hilo ≡ some a
          → Elegido (record k { sem_hilo_en_ready = k.sem_hilo_en_ready - 1 }) (k1, hilo)
          → Asegura (Avanza k) (despachar c e k1 a)
      con_elegido k hay k1 hilo a es (inl nulo, r1, r2, r3, r4, r5) = absurd (cc)
      con_elegido k hay k1 hilo a es (inr menos, r1, r2, r3, r4, r5) =
          Asegura-weaken (despachar-Avanza k1 a) λ k2 h2. omega arith

  planificador_largo_plazo-Avanza :
      (k : Kernel) → Asegura (Avanza k) (planificador_largo_plazo c e k)
  unfolding planificador_largo_plazo
  planificador_largo_plazo-Avanza k =
      let k0 = record k { sem_proceso_en_new = k.sem_proceso_en_new - 1 } in
      Asegura-luego (deref (c.list_get k.procesos_en_new 0)) λ p h.
        Asegura-bind (consultar_espacio_disponible e k0 p)
          (consultar_espacio_disponible-Avanza c e k0 p)
          λ (k1, hay) h1.
            Asegura-if hay
              (λ si. Asegura-luego (deref (k1.procesos p)) λ q h.
                Asegura-bind (crear_tcb c e k1 p q.prioridad_tid0 q.archivo_de_pseudocodigo)
                  (crear_tcb-Avanza c e k1 p q.prioridad_tid0 q.archivo_de_pseudocodigo)
                  λ (k2, hilo) h2. Asegura-luego (deref hilo) λ a h.
                    Asegura-bind (transicion_a_ready c e k2 a) (transicion_a_ready-Avanza c e k2 a)
                      λ (k3, paso) h3. Asegura-ok _ (omega arith))
              (λ lleno. Asegura-ok _ (omega arith))

  finalizador_de_hilos-Avanza :
      (k : Kernel) → 0 < k.sem_hilo_en_exit → Asegura (Avanza k) (finalizador_de_hilos c e k)
  unfolding finalizador_de_hilos
  finalizador_de_hilos-Avanza k hay =
      Asegura-luego (deref (c.list_remove k.hilos_en_exit 0).0) λ a h.
        let k1 = record k {
          sem_hilo_en_exit = k.sem_hilo_en_exit - 1;
          hilos_en_exit = (c.list_remove k.hilos_en_exit 0).1;
        } in
        Asegura-weaken (liberar_tcb-Avanza c e k1 a)
          λ k2 h2. omega (arith, sacar_primero k.hilos_en_exit a h)

  atender_io-Avanza : (k : Kernel) → 0 < k.sem_io → Asegura (Avanza k) (atender_io c e k)
  unfolding atender_io
  atender_io-Avanza k hay =
      Asegura-luego (deref (c.list_remove k.dispositivo_io 0).0)
        λ s h. Asegura-ok _ (omega (arith, sacar_primero k.dispositivo_io s h))

  atender_io_fin-Avanza : (k : Kernel) → Asegura (Avanza k) (atender_io_fin c e k)
  unfolding atender_io_fin
  atender_io_fin-Avanza k =
      let k0 = record k { solicitud_io = none } in
      Asegura-luego (deref k.solicitud_io) λ s h.
        Asegura-bind (con_hilo k0 s.hilo_atendido (λ t. record t { bloqueado_por_io = false }))
          (con_hilo-Avanza k0 s.hilo_atendido (λ t. record t { bloqueado_por_io = false }))
          λ k1 h1. Asegura-luego (deref (k1.hilos s.hilo_atendido)) λ t g.
            Asegura-luego (pid_del_hilo k1 t) λ pid g.
              Asegura-bind (transicion_a_ready c e k1 s.hilo_atendido)
                (transicion_a_ready-Avanza c e k1 s.hilo_atendido)
                λ (k2, paso) h2. Asegura-ok _ (omega arith)

  marcar_fin-Avanza :
      (k : Kernel) (reloj : ℕ × ℕ) (o : Option ℕ) → Asegura (Avanza k) (marcar_fin c e k reloj o)
  unfolding marcar_fin
  marcar_fin-Avanza k reloj none = Asegura-ok _ (omega arith)
  marcar_fin-Avanza k reloj (some a) =
      Asegura-bind (con_hilo k a (λ t. record t { fin_deq = 1 }))
        (con_hilo-Avanza k a (λ t. record t { fin_deq = 1 }))
        λ k1 h1. Asegura-luego (deref (k1.hilos a)) λ t h.
          Asegura-if (reloj.0 == t.tid)
            (λ suyo. Asegura-luego (pid_del_hilo k1 t) λ pid h.
              Asegura-if ((reloj.1 == pid) && t.clock_contando) (λ si. Asegura-ok _ h1)
                (λ otro. Asegura-ok _ h1))
            (λ otro. Asegura-ok _ h1)

  Paso-Avanza : {k k' : Kernel} → Paso c e k k' → Avanza k k'
  unfolding controlar_tiempo_de_ejecucion
  Paso-Avanza {k} {k'} (despacha {k0 = k0} libre hay h es) =
      let avance = (elegir_y_despachar-Avanza k hay).cumple k0 h in subst (Avanza k) (sym es) avance
  Paso-Avanza {k} {k'} (atiende espera h) =
      (atender_respuesta-Avanza (record k { espera_a_la_cpu = false })).cumple k' h
  Paso-Avanza {k} {k'} (largo_plazo hay h) = (planificador_largo_plazo-Avanza k).cumple k' h
  Paso-Avanza {k} {k'} (finaliza hay h) = (finalizador_de_hilos-Avanza k hay).cumple k' h
  Paso-Avanza {k} {k'} (toma_io libre hay h) = (atender_io-Avanza k hay).cumple k' h
  Paso-Avanza {k} {k'} (termina_io h) = (atender_io_fin-Avanza k).cumple k' h
  Paso-Avanza {k} {k'} (responde i v esta h) =
      (dump_memory_respuesta-Avanza c e (record k { volcados = erase_idx k.volcados i }) v).cumple
        k' h
  Paso-Avanza {k} {k'} (vence i reloj esta h) =
      (marcar_fin-Avanza (record k { relojes = erase_idx k.relojes i }) reloj k.hilo_en_exec).cumple
        k' h

  -- In every state that the module can come to by whole steps of its threads, in any order,
  -- `semHiloEnReady` is at least the number of threads in the queues of READY, `semHiloEnExit` is the
  -- length of `hilosEnExit`, and `semIO` that of `dispositivoIO`. A step is a round of a thread, or one of the
  -- two parts of a round that waits in its middle.
  pub Alcanza-semaforos :
      (cpu ruta tamanio : List ℕ) {k : Kernel}
      → Alcanza c e cpu ruta tamanio k
      → (encolados k ≤ k.sem_hilo_en_ready)
        × (k.sem_hilo_en_exit ≡ length k.hilos_en_exit)
        × (k.sem_io ≡ length k.dispositivo_io)
  unfolding inicializar_estructuras atender_archivo_inicial
  Alcanza-semaforos cpu ruta tamanio {k} (inicio h) =
      let (n, leido, h1) = >>=-eq-ok (atoi (some tamanio)) _ h in
      let avance =
        (iniciar_proceso-Avanza c e (inicializar_estructuras cpu) ruta n 0).cumple k h1 in
      omega arith
  Alcanza-semaforos cpu ruta tamanio {k} (sigue {k = k0} r p) =
      let antes = Alcanza-semaforos cpu ruta tamanio r in let avance = Paso-Avanza p in omega arith
