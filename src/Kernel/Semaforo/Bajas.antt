-- ===== src/Kernel/Semaforo/Bajas.antt =====
-- The end of threads and processes, against the semaphores.
use tp_sistemas_operativos.Base.{
  ℕ, zero, suc, ◌+◌, arith, Option, none, some, List, [], ◌∷◌, sum_of-modify_p, ltb, codes,
  strcmp_eq,
}
use tp_sistemas_operativos.Base.Resultado.{ok, falla, deref}
use tp_sistemas_operativos.Commons.{Listas}
use tp_sistemas_operativos.Kernel.Altas.{liberar_pcb}
use tp_sistemas_operativos.Kernel.Asegura.{
  Asegura, Asegura-bind, Asegura-luego, Asegura-ok, Asegura-falla, Asegura-if, Asegura-weaken,
}
use tp_sistemas_operativos.Kernel.Avisos.{
  notificar_finalizacion_proceso, notificar_finalizacion_hilo,
}
use tp_sistemas_operativos.Kernel.Bajas.{
  es_exit, eliminar_de_ready, eliminar_de_colas, asignar_al_primero, desbloquear, liberar_recurso,
  liberar_recursos, liberar_recursos_mutex, despertar_por_join, finalizar_hilo,
  finalizar_si_no_termino, finalizar_hilos, finalizar_si_exit, finalizar_proceso,
}
use tp_sistemas_operativos.Kernel.Colas.{
  tiene_prioridad, pasar_a_ready, obtener_cola_multinivel, usamos_multicolas,
}
use tp_sistemas_operativos.Kernel.Estado.{
  Kernel, Tcb, Entorno, con_hilo, con_proceso, con_recurso, remover_hilo, remover_mutex,
  pid_del_hilo, apunta_a,
}
use tp_sistemas_operativos.Kernel.Semaforo.Colas.{
  largo_de, Avanza, con_hilo-Avanza, con_proceso-Avanza, con_recurso-Avanza, remover_hilo-length,
  obtener_cola_multinivel-find?, list_add-length, pasar_a_ready-Avanza,
  notificar_finalizacion_proceso-Avanza, notificar_finalizacion_hilo-Avanza, liberar_pcb-Avanza,
}
use tp_sistemas_operativos.Utils.Recepcion.{recibir_una_cadena, cadena_c}

module _ (c : Listas) (e : Entorno) where
  eliminar_de_ready-Avanza :
      (k : Kernel) (t : Tcb) (pid : ℕ) → Asegura (Avanza k) (eliminar_de_ready c e k t pid)
  unfolding eliminar_de_ready
  eliminar_de_ready-Avanza k t pid =
      Asegura-bind (remover_hilo c k k.hilos_en_ready t.tid pid)
        (remover_hilo-length c k k.hilos_en_ready t.tid pid)
        λ (h1, ready) menos.
          let k1 = record k { hilos_en_ready = ready } in
          Asegura-if (usamos_multicolas e)
            (λ cmn.
              Asegura-luego (obtener_cola_multinivel c e k.colas_de_ready t.prioridad) λ q hallada.
                Asegura-if (ltb 0 (c.list_size q.cola_multinivel))
                  (λ hay.
                    Asegura-bind (remover_hilo c k1 q.cola_multinivel t.tid pid)
                      (remover_hilo-length c k1 q.cola_multinivel t.tid pid)
                      λ (h2, resto) menos2. Asegura-ok _ (
                        omega (
                          arith,
                          sum_of-modify_p (tiene_prioridad t.prioridad) largo_de
                              (λ q. record q { cola_multinivel = resto }) k.colas_de_ready q
                              (obtener_cola_multinivel-find? c e k.colas_de_ready t.prioridad q
                                hallada),
                        )))
                  (λ vacia. Asegura-ok _ (omega arith)))
            (λ otro. Asegura-ok _ (omega arith))

  pub eliminar_de_colas-Avanza :
      (k : Kernel) (a : ℕ) → Asegura (Avanza k) (eliminar_de_colas c e k a)
  unfolding eliminar_de_colas
  eliminar_de_colas-Avanza k a = Asegura-luego (deref (k.hilos a)) λ t h.
      Asegura-luego (pid_del_hilo k t) λ pid h.
        Asegura-luego (remover_hilo c k k.hilos_en_block t.tid pid)
          λ (h, block) sacado. resto t pid h block
    where
      resto :
          (t : Tcb) (pid : ℕ) (h : Option ℕ) (block : List ℕ)
          → Asegura (Avanza k) (elim h [
            | none ↦ eliminar_de_ready c e (record k { hilos_en_block = block }) t pid
            | some b ↦ ok (record k { hilos_en_block = block })
          ])
      resto t pid none block =
          Asegura-weaken (eliminar_de_ready-Avanza (record k { hilos_en_block = block }) t pid)
            λ k' h. h
      resto t pid (some b) block = Asegura-ok _ (omega arith)

  pub asignar_al_primero-Avanza :
      (k : Kernel) (m : ℕ) (nombre : List ℕ)
      → Asegura (λ (r : Kernel × ℕ). Avanza k r.0) (asignar_al_primero c e k m nombre)
  unfolding asignar_al_primero
  asignar_al_primero-Avanza k m nombre = Asegura-luego (deref (k.recursos m)) λ r h.
      Asegura-bind (con_recurso k m _) (con_recurso-Avanza k m _) λ k1 h1.
        Asegura-luego (deref (c.list_remove r.hilos_bloqueados 0).0) λ nuevo h.
          Asegura-luego (deref (k1.hilos nuevo)) λ t h.
            Asegura-luego (remover_mutex c k1 t.mutex_en_espera nombre) λ (s, espera) h.
              Asegura-bind (con_hilo k1 nuevo _) (con_hilo-Avanza k1 nuevo _)
                λ k2 h2. Asegura-ok _ (omega arith)

  pub desbloquear-Avanza :
      (k : Kernel) (tid pid : ℕ) → Asegura (Avanza k) (desbloquear c e k tid pid)
  unfolding desbloquear
  desbloquear-Avanza k tid pid =
      Asegura-luego (remover_hilo c k k.hilos_en_block tid pid) λ (h, block) sacado. resto h block
    where
      resto :
          (h : Option ℕ) (block : List ℕ)
          → Asegura (Avanza k) (elim h [
            | none ↦ ok (record k { hilos_en_block = block })
            | some b ↦ pasar_a_ready c e (record k { hilos_en_block = block }) b
          ])
      resto none block = Asegura-ok _ (omega arith)
      resto (some b) block =
          Asegura-weaken (pasar_a_ready-Avanza c e (record k { hilos_en_block = block }) b)
            λ k' h. h

  liberar_recurso-Avanza :
      (k : Kernel) (a tid pid m : ℕ) → Asegura (Avanza k) (liberar_recurso c e k a tid pid m)
  unfolding liberar_recurso
  liberar_recurso-Avanza k a tid pid m = Asegura-luego (deref (k.recursos m)) λ r h.
      Asegura-luego (remover_hilo c k r.hilos_bloqueados tid pid) λ (s, resto) h.
        Asegura-bind (con_recurso k m _) (con_recurso-Avanza k m _) λ k1 h1.
          Asegura-if (apunta_a r.tomado_por a)
            (λ suyo.
              Asegura-if (ltb 0 (c.list_size resto))
                (λ hay.
                  Asegura-bind (asignar_al_primero c e k1 m r.nombre_recurso)
                    (asignar_al_primero-Avanza k1 m r.nombre_recurso)
                    λ (k2, nuevo) h2.
                      Asegura-weaken (desbloquear-Avanza k2 tid pid) λ k3 h3. omega arith)
                (λ nadie. Asegura-weaken (con_recurso-Avanza k1 m _) λ k2 h2. omega arith))
            (λ ajeno. Asegura-ok _ h1)

  liberar_recursos-Avanza :
      (ms : List ℕ) (k : Kernel) (a tid pid : ℕ)
      → Asegura (Avanza k) (liberar_recursos c e k a tid pid ms)
  unfolding liberar_recursos
  liberar_recursos-Avanza [] k a tid pid = Asegura-ok _ (omega arith)
  liberar_recursos-Avanza (m ∷ ms) k a tid pid =
      Asegura-bind (liberar_recurso c e k a tid pid m) (liberar_recurso-Avanza k a tid pid m)
        λ k1 h1. Asegura-weaken (liberar_recursos-Avanza ms k1 a tid pid) λ k2 h2. omega arith

  liberar_recursos_mutex-Avanza :
      (k : Kernel) (a : ℕ) → Asegura (Avanza k) (liberar_recursos_mutex c e k a)
  unfolding liberar_recursos_mutex
  liberar_recursos_mutex-Avanza k a = Asegura-luego (deref (k.hilos a)) λ t h.
      Asegura-luego (deref (k.procesos t.proceso_padre))
        λ p h. liberar_recursos-Avanza p.lista_de_mutex_del_proceso k a t.tid p.pid

  despertar_por_join-Avanza :
      (k : Kernel) (j : Option ℕ) → Asegura (Avanza k) (despertar_por_join c e k j)
  unfolding despertar_por_join
  despertar_por_join-Avanza k none = Asegura-ok _ (omega arith)
  despertar_por_join-Avanza k (some j) = Asegura-luego (deref (k.hilos j)) λ u h.
      Asegura-luego (pid_del_hilo k u) λ pid h.
        Asegura-luego (remover_hilo c k k.hilos_en_block u.tid pid) λ (hallado, block) h.
          Asegura-luego (deref hallado) λ b h.
            Asegura-bind (con_hilo (record k { hilos_en_block = block }) b _)
              (con_hilo-Avanza (record k { hilos_en_block = block }) b _)
              λ k1 h1. Asegura-weaken (pasar_a_ready-Avanza c e k1 b) λ k2 h2. omega arith

  pub finalizar_hilo-Avanza : (k : Kernel) (a : ℕ) → Asegura (Avanza k) (finalizar_hilo c e k a)
  unfolding finalizar_hilo
  finalizar_hilo-Avanza k a = Asegura-bind (con_hilo k a _) (con_hilo-Avanza k a _) λ k1 h1.
      let en_exit = record k1 { hilos_en_exit = c.list_add k1.hilos_en_exit a } in
      Asegura-bind (notificar_finalizacion_hilo e en_exit a)
        (notificar_finalizacion_hilo-Avanza c e en_exit a)
        λ k2 h2. Asegura-luego (deref (k2.hilos a)) λ t h.
          Asegura-bind (despertar_por_join c e k2 t.hilo_bloqueado_por_join)
            (despertar_por_join-Avanza k2 t.hilo_bloqueado_por_join)
            λ k3 h3.
              Asegura-bind (liberar_recursos_mutex c e k3 a) (liberar_recursos_mutex-Avanza k3 a)
                λ k4 h4. Asegura-ok _ (omega (arith, list_add-length c e k1.hilos_en_exit a))

  finalizar_si_no_termino-Avanza :
      (k : Kernel) (a : ℕ) → Asegura (Avanza k) (finalizar_si_no_termino c e k a)
  unfolding finalizar_si_no_termino
  finalizar_si_no_termino-Avanza k a = Asegura-luego (deref (k.hilos a)) λ t h.
      Asegura-if (es_exit t.estado_del_hilo) (λ si. Asegura-ok _ (omega arith))
        (λ otro.
          Asegura-bind (finalizar_hilo c e k a) (finalizar_hilo-Avanza k a)
            λ k1 h1. Asegura-weaken (eliminar_de_colas-Avanza k1 a) λ k2 h2. omega arith)

  finalizar_hilos-Avanza :
      (fuel i : ℕ) (k : Kernel) (p : ℕ) → Asegura (Avanza k) (finalizar_hilos c e falla fuel i k p)
  unfolding finalizar_hilos
  finalizar_hilos-Avanza zero i k p = Asegura-falla
  finalizar_hilos-Avanza (suc fuel) i k p = Asegura-luego (deref (k.procesos p)) λ q h.
      Asegura-if (ltb i (c.list_size q.lista_de_hilos_del_proceso))
        (λ si. Asegura-bind (con_proceso k p _) (con_proceso-Avanza k p _) λ k1 h1.
          Asegura-luego (deref (c.list_remove q.lista_de_hilos_del_proceso i).0) λ a h.
            Asegura-bind (finalizar_si_no_termino c e k1 a) (finalizar_si_no_termino-Avanza k1 a)
              λ k2 h2.
                Asegura-weaken (finalizar_hilos-Avanza fuel (i + 1) k2 p) λ k3 h3. omega arith)
        (λ fin. Asegura-ok _ (omega arith))

  finalizar_si_exit-Avanza :
      (k : Kernel) (p : ℕ) (respuesta : List ℕ)
      → Asegura (Avanza k) (finalizar_si_exit c e k p respuesta)
  unfolding finalizar_si_exit
  finalizar_si_exit-Avanza k p respuesta =
      Asegura-if (strcmp_eq respuesta (codes "EXIT"))
        (λ si. Asegura-luego (deref (k.procesos p)) λ q h. finalizar_hilos-Avanza _ 0 k p)
        (λ no'. Asegura-ok _ (omega arith))

  pub finalizar_proceso-Avanza :
      (k : Kernel) (p : ℕ) → Asegura (Avanza k) (finalizar_proceso c e k p)
  unfolding finalizar_proceso
  finalizar_proceso-Avanza k p =
      Asegura-luego (recibir_una_cadena k.socket_cpu_dispatch) λ (bloque, s) h.
        Asegura-luego (cadena_c bloque) λ respuesta h.
          let k1 = record k { socket_cpu_dispatch = s } in
          Asegura-bind (finalizar_si_exit c e k1 p respuesta)
            (finalizar_si_exit-Avanza k1 p respuesta)
            λ k2 h2.
              Asegura-bind (notificar_finalizacion_proceso e k2 p)
                (notificar_finalizacion_proceso-Avanza c e k2 p)
                λ k3 h3.
                  Asegura-bind (liberar_pcb k3 p) (liberar_pcb-Avanza k3 p)
                    λ k4 h4. Asegura-ok _ (ground arith)
