-- ===== src/Kernel/Semaforo/Llamadas.antt =====
-- The system calls, against the semaphores.
use tp_sistemas_operativos.Base.{
  ℕ, Bool, not, ◌&&◌, ◌==◌, arith, Option, none, some, List, [], ◌∷◌, ltb,
}
use tp_sistemas_operativos.Base.Resultado.{ok, deref, ◌>>=◌}
use tp_sistemas_operativos.Commons.{Listas}
use tp_sistemas_operativos.Kernel.Altas.{crear_tcb}
use tp_sistemas_operativos.Kernel.Asegura.{
  Asegura, Asegura-bind, Asegura-luego, Asegura-ok, Asegura-if, Asegura-weaken,
}
use tp_sistemas_operativos.Kernel.Avisos.{es_codigo, tras_pedido}
use tp_sistemas_operativos.Kernel.Bajas.{es_exit, asignar_al_primero, finalizar_hilo}
use tp_sistemas_operativos.Kernel.Colas.{transicion_a_ready}
use tp_sistemas_operativos.Kernel.Estado.{
  Kernel, Tcb, Volcado, Entorno, con_hilo, con_proceso, con_recurso, remover_hilo, pid_del_hilo,
  apunta_a,
}
use tp_sistemas_operativos.Kernel.Semaforo.Colas.{
  Avanza, con_hilo-Avanza, con_proceso-Avanza, con_recurso-Avanza, list_add-length,
  transicion_a_ready-Avanza, pasar_a_ready-Avanza, crear_tcb-Avanza, iniciar_proceso-Avanza,
}
use tp_sistemas_operativos.Kernel.Semaforo.Bajas.{
  eliminar_de_colas-Avanza, asignar_al_primero-Avanza, desbloquear-Avanza, finalizar_hilo-Avanza,
  finalizar_proceso-Avanza,
}
use tp_sistemas_operativos.Cpu.Mmu.{numeros}
use tp_sistemas_operativos.Kernel.Syscalls.{
  espera_join, espera_io, espera_mutex, cancelar, con_mutex_nuevo, esta_libre, tomar_o_finalizar,
  soltar_o_finalizar, de_la_cpu, cadena_de_la_cpu, hilo_actual, es_terminado, proccess_create,
  thread_create, bloquear_actual, joinear, thread_join, thread_cancel, mutex_create, buscar_recurso,
  tomar, mutex_lock, soltar, mutex_unlock, dump_memory, dump_memory_respuesta, io,
}
use tp_sistemas_operativos.Utils.OpCode.{OpCode}
use tp_sistemas_operativos.Utils.Recepcion.{
  Lector, recibir_operacion, recibir_un_entero, recibir_una_cadena, recibir_una_cadena_y_un_entero,
  recibir_enteros_y_valor2, cadena_c,
}

pub de_la_cpu-Avanza :
    {A : Type 0} (k : Kernel) (lector : Lector A)
    → Asegura (λ (r : Kernel × A). Avanza k r.0) (de_la_cpu k lector)
unfolding de_la_cpu
de_la_cpu-Avanza k lector =
    Asegura-luego (lector k.socket_cpu_dispatch) λ r h. Asegura-ok _ (omega arith)

cadena_de_la_cpu-Avanza :
    (k : Kernel) → Asegura (λ (r : Kernel × List ℕ). Avanza k r.0) (cadena_de_la_cpu k)
unfolding cadena_de_la_cpu
cadena_de_la_cpu-Avanza k =
    Asegura-bind (de_la_cpu k recibir_una_cadena) (de_la_cpu-Avanza k recibir_una_cadena)
      λ (k1, bloque) h. Asegura-luego (cadena_c bloque) λ cadena h2. Asegura-ok _ h

module _ (c : Listas) (e : Entorno) where
  pub proccess_create-Avanza : (k : Kernel) → Asegura (Avanza k) (proccess_create c e k)
  unfolding proccess_create
  proccess_create-Avanza k =
      Asegura-bind (de_la_cpu k recibir_enteros_y_valor2)
        (de_la_cpu-Avanza k recibir_enteros_y_valor2)
        λ (k1, datos) h1. Asegura-luego (cadena_c datos.2) λ recurso h.
          Asegura-weaken (iniciar_proceso-Avanza c e k1 recurso datos.0 datos.1)
            λ k2 h2. omega arith

  pub thread_create-Avanza : (k : Kernel) → Asegura (Avanza k) (thread_create c e k)
  unfolding thread_create
  thread_create-Avanza k =
      Asegura-bind (de_la_cpu k recibir_una_cadena_y_un_entero)
        (de_la_cpu-Avanza k recibir_una_cadena_y_un_entero)
        λ (k1, datos) h1. Asegura-luego (cadena_c datos.0) λ nombre h.
          Asegura-luego (hilo_actual k1) λ (a, t) h.
            Asegura-bind (crear_tcb c e k1 t.proceso_padre datos.1 nombre)
              (crear_tcb-Avanza c e k1 t.proceso_padre datos.1 nombre)
              λ (k2, nuevo) h2. resto k1 k2 h1 h2 nuevo
    where
      resto :
          (k1 k2 : Kernel)
          → Avanza k k1
          → Avanza k1 k2
          → (nuevo : Option ℕ)
          → Asegura
              (Avanza k)
              (elim nuevo [ none ↦ ok k2 | some b ↦ transicion_a_ready c e k2 b >>= λ r. ok r.0 ])
      resto k1 k2 h1 h2 none = Asegura-ok _ (omega arith)
      resto k1 k2 h1 h2 (some b) =
          Asegura-bind (transicion_a_ready c e k2 b) (transicion_a_ready-Avanza c e k2 b)
            λ (k3, paso) h3. Asegura-ok _ (omega arith)

  pub bloquear_actual-Avanza :
      (k : Kernel) (a : ℕ) (f : Tcb → Tcb) → Asegura (Avanza k) (bloquear_actual c e k a f)
  unfolding bloquear_actual
  bloquear_actual-Avanza k a f =
      Asegura-weaken
        (con_hilo-Avanza (record k { hilos_en_block = c.list_add k.hilos_en_block a }) a _)
        λ k1 h. h

  joinear-Avanza :
      (bs : List ℕ) (k : Kernel) (a tid : ℕ)
      → Asegura (λ (r : Kernel × Bool). Avanza k r.0) (joinear c e k a tid bs)
  unfolding joinear
  joinear-Avanza [] k a tid = Asegura-ok _ (omega arith)
  joinear-Avanza (b ∷ bs) k a tid = Asegura-luego (deref (k.hilos b)) λ u h.
      Asegura-if ((u.tid == tid) && not (es_terminado u.estado_del_hilo))
        (λ si. Asegura-bind (con_hilo k b _) (con_hilo-Avanza k b _) λ k1 h1.
          Asegura-bind (bloquear_actual c e k1 a espera_join)
            (bloquear_actual-Avanza k1 a espera_join) λ k2 h2. Asegura-ok _ (omega arith))
        (λ otro. joinear-Avanza bs k a tid)

  pub thread_join-Avanza :
      (k : Kernel) → Asegura (λ (r : Kernel × Bool). Avanza k r.0) (thread_join c e k)
  unfolding thread_join
  thread_join-Avanza k =
      Asegura-bind (de_la_cpu k recibir_un_entero) (de_la_cpu-Avanza k recibir_un_entero)
        λ (k1, tid) h1. Asegura-luego (hilo_actual k1) λ (a, t) h.
          Asegura-luego (deref (k1.procesos t.proceso_padre)) λ p h.
            Asegura-weaken (joinear-Avanza p.lista_de_hilos_del_proceso k1 a tid)
              λ (k2, b) h2. omega arith

  cancelar-Avanza : (k : Kernel) (o : Option ℕ) → Asegura (Avanza k) (cancelar c e k o)
  unfolding cancelar
  cancelar-Avanza k none = Asegura-ok _ (omega arith)
  cancelar-Avanza k (some b) = Asegura-luego (deref (k.hilos b)) λ u h.
      Asegura-if (es_terminado u.estado_del_hilo) (λ si. Asegura-ok _ (omega arith))
        (λ otro.
          Asegura-if (es_exit u.estado_del_hilo) (λ si. Asegura-ok _ (omega arith))
            (λ otro.
              Asegura-bind (finalizar_hilo c e k b) (finalizar_hilo-Avanza c e k b)
                λ k3 h3. Asegura-weaken (eliminar_de_colas-Avanza c e k3 b) λ k4 h4. omega arith))

  pub thread_cancel-Avanza : (k : Kernel) → Asegura (Avanza k) (thread_cancel c e k)
  unfolding thread_cancel
  thread_cancel-Avanza k =
      Asegura-bind (de_la_cpu k recibir_un_entero) (de_la_cpu-Avanza k recibir_un_entero)
        λ (k1, tid) h1. Asegura-luego (hilo_actual k1) λ (a, t) h.
          Asegura-luego (deref (k1.procesos t.proceso_padre)) λ p h.
            Asegura-luego (remover_hilo c k1 p.lista_de_hilos_del_proceso tid p.pid) λ (o, resto) h.
              Asegura-bind (con_proceso k1 t.proceso_padre _)
                (con_proceso-Avanza k1 t.proceso_padre _)
                λ k2 h2. Asegura-weaken (cancelar-Avanza k2 o) λ k3 h3. omega arith

  pub mutex_create-Avanza : (k : Kernel) → Asegura (Avanza k) (mutex_create c e k)
  unfolding mutex_create
  mutex_create-Avanza k =
      Asegura-bind (cadena_de_la_cpu k) (cadena_de_la_cpu-Avanza k) λ (k1, recurso) h1.
        Asegura-luego (hilo_actual k1) λ (a, t) h.
          Asegura-luego (deref (k1.procesos t.proceso_padre)) λ p h.
            Asegura-weaken
              (con_proceso-Avanza (con_mutex_nuevo k1 p.siguiente_mid recurso) t.proceso_padre _)
              λ k2 h2. omega arith

  tomar-Avanza :
      (k : Kernel) (a m : ℕ) → Asegura (λ (r : Kernel × Bool). Avanza k r.0) (tomar c e k a m)
  unfolding tomar
  tomar-Avanza k a m = Asegura-luego (deref (k.recursos m)) λ r h.
      Asegura-if (esta_libre r)
        (λ libre.
          Asegura-bind (con_recurso k m _) (con_recurso-Avanza k m _) λ k1 h1. Asegura-ok _ h1)
        (λ tomado. Asegura-bind (con_recurso k m _) (con_recurso-Avanza k m _) λ k1 h1.
          Asegura-bind (bloquear_actual c e k1 a (espera_mutex c e m))
            (bloquear_actual-Avanza k1 a (espera_mutex c e m)) λ k2 h2. Asegura-ok _ (omega arith))

  tomar_o_finalizar-Avanza :
      (k : Kernel) (a : ℕ) (o : Option ℕ)
      → Asegura (λ (r : Kernel × Bool). Avanza k r.0) (tomar_o_finalizar c e k a o)
  unfolding tomar_o_finalizar
  tomar_o_finalizar-Avanza k a none =
      Asegura-bind (finalizar_hilo c e k a) (finalizar_hilo-Avanza c e k a) λ k1 h1. Asegura-ok _ h1
  tomar_o_finalizar-Avanza k a (some m) = tomar-Avanza k a m

  pub mutex_lock-Avanza :
      (k : Kernel) → Asegura (λ (r : Kernel × Bool). Avanza k r.0) (mutex_lock c e k)
  unfolding mutex_lock
  mutex_lock-Avanza k =
      Asegura-bind (cadena_de_la_cpu k) (cadena_de_la_cpu-Avanza k) λ (k1, recurso) h1.
        Asegura-luego (hilo_actual k1) λ (a, t) h.
          Asegura-luego (deref (k1.procesos t.proceso_padre)) λ p h.
            Asegura-luego (buscar_recurso c e k1 p.lista_de_mutex_del_proceso recurso)
              λ o h. Asegura-weaken (tomar_o_finalizar-Avanza k1 a o) λ r h2. omega arith

  soltar-Avanza :
      (k : Kernel) (m : ℕ) (recurso : List ℕ) → Asegura (Avanza k) (soltar c e k m recurso)
  unfolding soltar
  soltar-Avanza k m recurso = Asegura-luego (deref (k.recursos m)) λ r h.
      Asegura-if (ltb 0 (c.list_size r.hilos_bloqueados))
        (λ hay.
          Asegura-bind (asignar_al_primero c e k m recurso)
            (asignar_al_primero-Avanza c e k m recurso)
            λ (k1, nuevo) h1. Asegura-luego (deref (k1.hilos nuevo)) λ t h.
              Asegura-luego (pid_del_hilo k1 t)
                λ pid h. Asegura-weaken (desbloquear-Avanza c e k1 t.tid pid) λ k2 h2. omega arith)
        (λ nadie. con_recurso-Avanza k m _)

  soltar_o_finalizar-Avanza :
      (k : Kernel) (a : ℕ) (recurso : List ℕ) (o : Option ℕ)
      → Asegura (Avanza k) (soltar_o_finalizar c e k a recurso o)
  unfolding soltar_o_finalizar
  soltar_o_finalizar-Avanza k a recurso none = finalizar_hilo-Avanza c e k a
  soltar_o_finalizar-Avanza k a recurso (some m) = Asegura-luego (deref (k.recursos m)) λ r h.
      Asegura-if (apunta_a r.tomado_por a) (λ suyo. soltar-Avanza k m recurso)
        (λ ajeno. finalizar_hilo-Avanza c e k a)

  pub mutex_unlock-Avanza : (k : Kernel) → Asegura (Avanza k) (mutex_unlock c e k)
  unfolding mutex_unlock
  mutex_unlock-Avanza k =
      Asegura-bind (cadena_de_la_cpu k) (cadena_de_la_cpu-Avanza k) λ (k1, recurso) h1.
        Asegura-luego (hilo_actual k1) λ (a, t) h.
          Asegura-luego (deref (k1.procesos t.proceso_padre)) λ p h.
            Asegura-luego (buscar_recurso c e k1 p.lista_de_mutex_del_proceso recurso)
              λ o h. Asegura-weaken (soltar_o_finalizar-Avanza k1 a recurso o) λ k2 h2. omega arith

  pub dump_memory-Avanza : (k : Kernel) → Asegura (Avanza k) (dump_memory c e k)
  unfolding dump_memory
  dump_memory-Avanza k = Asegura-luego (hilo_actual k) λ (a, t) h.
      Asegura-luego (pid_del_hilo k t) λ pid h.
        let k0 = tras_pedido k (numeros OpCode.memory_dump (pid ∷ t.tid ∷ [])) in
        Asegura-bind (bloquear_actual c e k0 a (λ t. t)) (bloquear_actual-Avanza k0 a (λ t. t))
          λ k1 h1. Asegura-ok _ (omega arith)

  pub dump_memory_respuesta-Avanza :
      (k : Kernel) (v : Volcado) → Asegura (Avanza k) (dump_memory_respuesta c e k v)
  unfolding dump_memory_respuesta
  dump_memory_respuesta-Avanza k v = Asegura-luego (recibir_operacion v.conexion) λ (codigo, s) h.
      Asegura-luego (recibir_una_cadena s) λ r h.
        Asegura-if (es_codigo OpCode.dump_memory_ok codigo)
          (λ si. Asegura-luego (remover_hilo c k k.hilos_en_block v.tid v.pid) λ (hallado, block) h.
            Asegura-luego (deref hallado) λ a h.
              Asegura-weaken (pasar_a_ready-Avanza c e (record k { hilos_en_block = block }) a)
                λ k1 h. h)
          (λ otro.
            Asegura-luego (deref (k.hilos v.hilo_auxiliar))
              λ t h. finalizar_proceso-Avanza c e k t.proceso_padre)

  pub io-Avanza : (k : Kernel) → Asegura (Avanza k) (io c e k)
  unfolding io
  io-Avanza k =
      Asegura-bind (de_la_cpu k recibir_un_entero) (de_la_cpu-Avanza k recibir_un_entero)
        λ (k1, tiempo) h1. Asegura-luego (hilo_actual k1) λ (a, t) h.
          Asegura-luego (pid_del_hilo k1 t) λ pid h.
            Asegura-bind (bloquear_actual c e k1 a espera_io)
              (bloquear_actual-Avanza k1 a espera_io)
              λ k2 h2. Asegura-ok _ (
                omega (
                  arith,
                  list_add-length c e k2.dispositivo_io
                      (record { hilo_atendido = a; tiempo_bloqueado = tiempo }),
                ))
