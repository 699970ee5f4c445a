-- ===== src/Kernel/Semaforo/Colas.antt =====
-- The semaphores against the queues that they count: `semHiloEnReady`, `semHiloEnExit` and `semIO` of
-- kernel/src/mainkernel.c. The writes, the queues and the messages.
use tp_sistemas_operativos.Base.{
  ℕ, ◌+◌, ◌≤◌, ◌≡◌, refl, ap, Bool, arith, Option, none, some, List, [], ◌∷◌, length, sum_of,
  length-append, sum_of-modify_p, sum_of-perm, sum_of-append, inl, inr, Option-cases, find?, ltb,
  erase_p, length-erase_p, erase_p-none,
}
use tp_sistemas_operativos.Base.Resultado.{ok, deref}
use tp_sistemas_operativos.Commons.{Listas}
use tp_sistemas_operativos.Kernel.Altas.{
  con_hilo_nuevo, con_hilo_anotado, proceso_iniciado, olvidar_hilo, crear_pcb, liberar_mutexes,
  liberar_pcb, crear_tcb, liberar_tcb, iniciar_proceso,
}
use tp_sistemas_operativos.Kernel.Asegura.{
  Asegura, Asegura-bind, Asegura-luego, Asegura-ok, Asegura-if, Asegura-weaken,
}
use tp_sistemas_operativos.Kernel.Avisos.{
  notificar_finalizacion_proceso, notificar_finalizacion_hilo, notificar_creacion_hilo,
  consultar_espacio_disponible,
}
use tp_sistemas_operativos.Kernel.Colas.{
  tiene_prioridad, encolar, transicion_a_ready, pasar_a_ready, obtener_cola_multinivel,
  puede_correr, usamos_multicolas, listo, crear_cola_ready, comparador_de_colas,
}
use tp_sistemas_operativos.Kernel.Estado.{
  Kernel, Tcb, Pcb, Mutex, Cola, Entorno, actualizar, con_hilo, con_proceso, con_recurso,
  remover_hilo, leido, es_el_hilo, pid_del_hilo,
}
use tp_sistemas_operativos.Utils.Recepcion.{recibir_operacion, recibir_una_cadena}

abbrev pub largo_de : Cola → ℕ
largo_de q = length q.cola_multinivel

-- The threads that stand in a queue of ready threads.
abbrev pub encolados : Kernel → ℕ
encolados k = length k.hilos_en_ready + sum_of largo_de k.colas_de_ready

-- From one state to another, the semaphore of READY gains at least as much as its queues, and those of
-- EXIT and of the device as much as theirs.
abbrev pub Avanza : Kernel → Kernel → Type 0
Avanza k k' =
    (encolados k' + k.sem_hilo_en_ready ≤ encolados k + k'.sem_hilo_en_ready)
    × (length k'.hilos_en_exit + k.sem_hilo_en_exit ≡ length k.hilos_en_exit + k'.sem_hilo_en_exit)
    × (length k'.dispositivo_io + k.sem_io ≡ length k.dispositivo_io + k'.sem_io)

module _ (k : Kernel) where
  pub con_hilo-Avanza : (a : ℕ) (f : Tcb → Tcb) → Asegura (Avanza k) (con_hilo k a f)
  unfolding con_hilo
  con_hilo-Avanza a f = Asegura-luego (deref (k.hilos a)) λ t e. Asegura-ok _ (omega arith)

  pub con_proceso-Avanza : (p : ℕ) (f : Pcb → Pcb) → Asegura (Avanza k) (con_proceso k p f)
  unfolding con_proceso
  con_proceso-Avanza p f = Asegura-luego (deref (k.procesos p)) λ q e. Asegura-ok _ (omega arith)

  pub con_recurso-Avanza : (m : ℕ) (f : Mutex → Mutex) → Asegura (Avanza k) (con_recurso k m f)
  unfolding con_recurso
  con_recurso-Avanza m f = Asegura-luego (deref (k.recursos m)) λ r e. Asegura-ok _ (omega arith)

length-erase_p-le : (p : ℕ → Bool) (xs : List ℕ) → length (erase_p p xs) ≤ length xs
length-erase_p-le p xs = elim (Option-cases (find? p xs)) [
  | inl falta ↦ rw (erase_p-none p xs falta) (omega arith)
  | inr (x, esta) ↦ omega (arith, length-erase_p p xs x esta)
]

module _ (c : Listas) where
  -- A removal by ids takes out one element, or none.
  pub remover_hilo-length :
      (k : Kernel) (xs : List ℕ) (tid pid : ℕ)
      → Asegura (λ (r : Option ℕ × List ℕ). length r.1 ≤ length xs) (remover_hilo c k xs tid pid)
  unfolding remover_hilo
  remover_hilo-length k xs tid pid =
      Asegura-luego (leido k (c.list_remove_by_condition xs (es_el_hilo k tid pid)).0) λ h e.
        Asegura-ok _ (
          rw (c.list_remove_by_condition_lem xs (es_el_hilo k tid pid))
            (length-erase_p-le (es_el_hilo k tid pid) xs))

module _ (c : Listas) (e : Entorno) where
  pub obtener_cola_multinivel-find? :
      (colas : List Cola) (prioridad : ℕ) (q : Cola)
      → obtener_cola_multinivel c e colas prioridad ≡ ok q
      → find? (tiene_prioridad prioridad) colas ≡ some q
  unfolding obtener_cola_multinivel
  obtener_cola_multinivel-find? colas prioridad q h =
      ground (arith, c.list_find_lem colas (tiene_prioridad prioridad))

  -- The thread is in one queue more, and nothing else changes.
  abbrev Encolado : Kernel → Kernel → Type 0
  Encolado k k' =
      (encolados k' ≡ encolados k + 1)
      × (k'.sem_hilo_en_ready ≡ k.sem_hilo_en_ready)
      × (length k'.hilos_en_exit ≡ length k.hilos_en_exit)
      × (k'.sem_hilo_en_exit ≡ k.sem_hilo_en_exit)
      × (length k'.dispositivo_io ≡ length k.dispositivo_io)
      × (k'.sem_io ≡ k.sem_io)

  pub list_add-length :
      {A : Type 0} (xs : List A) (a : A) → length (c.list_add xs a) ≡ length xs + 1
  list_add-length xs a = rw (c.list_add_lem xs a) (length-append xs (a ∷ []))

  encolar-Encolado :
      (k : Kernel) (a prioridad : ℕ) → Asegura (Encolado k) (encolar c e k a prioridad)
  unfolding encolar
  encolar-Encolado k a prioridad =
      Asegura-if (usamos_multicolas e)
        (λ cmn. Asegura-luego (obtener_cola_multinivel c e k.colas_de_ready prioridad) λ q h.
          Asegura-ok _ (
            omega (
              arith,
              sum_of-modify_p (tiene_prioridad prioridad) largo_de
                  (λ q. record q { cola_multinivel = c.list_add q.cola_multinivel a })
                  k.colas_de_ready q (obtener_cola_multinivel-find? k.colas_de_ready prioridad q h),
              list_add-length q.cola_multinivel a,
            ),
            refl,
            refl,
            refl,
            refl,
            refl,
          ))
        (λ otro.
          Asegura-ok _
            (omega (arith, list_add-length k.hilos_en_ready a), refl, refl, refl, refl, refl))

  pub transicion_a_ready-Avanza :
      (k : Kernel) (a : ℕ)
      → Asegura (λ (r : Kernel × Bool). Avanza k r.0) (transicion_a_ready c e k a)
  unfolding transicion_a_ready
  transicion_a_ready-Avanza k a = Asegura-luego (deref (k.hilos a)) λ t vivo.
      Asegura-if (puede_correr c e t)
        (λ si.
          Asegura-bind (encolar c e k a t.prioridad) (encolar-Encolado k a t.prioridad) λ k1 h1.
            Asegura-bind (con_hilo k1 a listo) (con_hilo-Avanza k1 a listo)
              λ k2 h2. Asegura-ok _ (omega arith))
        (λ falta. Asegura-ok _ (omega arith))

  pub pasar_a_ready-Avanza : (k : Kernel) (a : ℕ) → Asegura (Avanza k) (pasar_a_ready c e k a)
  unfolding pasar_a_ready
  pasar_a_ready-Avanza k a =
      Asegura-bind (transicion_a_ready c e k a) (transicion_a_ready-Avanza k a)
        λ (k1, paso) h. Asegura-ok _ (ground arith)

  pub notificar_finalizacion_proceso-Avanza :
      (k : Kernel) (p : ℕ) → Asegura (Avanza k) (notificar_finalizacion_proceso e k p)
  unfolding notificar_finalizacion_proceso
  notificar_finalizacion_proceso-Avanza k p =
      Asegura-luego (deref (k.procesos p)) λ q h. Asegura-ok _ (omega arith)

  pub notificar_finalizacion_hilo-Avanza :
      (k : Kernel) (a : ℕ) → Asegura (Avanza k) (notificar_finalizacion_hilo e k a)
  unfolding notificar_finalizacion_hilo
  notificar_finalizacion_hilo-Avanza k a = Asegura-luego (deref (k.hilos a)) λ t h.
      Asegura-luego (pid_del_hilo k t) λ pid h.
        Asegura-luego (recibir_operacion _)
          λ r h. Asegura-luego (recibir_una_cadena r.1) λ r h. Asegura-ok _ (omega arith)

  pub notificar_creacion_hilo-Avanza :
      (k : Kernel) (a : ℕ)
      → Asegura (λ (r : Kernel × Bool). Avanza k r.0) (notificar_creacion_hilo e k a)
  unfolding notificar_creacion_hilo
  notificar_creacion_hilo-Avanza k a = Asegura-luego (deref (k.hilos a)) λ t h.
      Asegura-luego (deref (k.procesos t.proceso_padre)) λ p h.
        Asegura-if (ltb 1 p.siguiente_tid)
          (λ si. Asegura-luego (recibir_operacion _) λ r h. Asegura-ok _ (omega arith))
          (λ otro. Asegura-ok _ (omega arith))

  pub consultar_espacio_disponible-Avanza :
      (k : Kernel) (p : ℕ)
      → Asegura (λ (r : Kernel × Bool). Avanza k r.0) (consultar_espacio_disponible e k p)
  unfolding consultar_espacio_disponible
  consultar_espacio_disponible-Avanza k p = Asegura-luego (deref (k.procesos p)) λ q h.
      Asegura-luego (recibir_operacion _)
        λ r h. Asegura-luego (recibir_una_cadena r.1) λ r h. Asegura-ok _ (omega arith)

liberar_mutexes-Avanza : (ms : List ℕ) (k : Kernel) → Asegura (Avanza k) (liberar_mutexes k ms)
unfolding liberar_mutexes
liberar_mutexes-Avanza [] k = Asegura-ok _ (omega arith)
liberar_mutexes-Avanza (m ∷ ms) k = Asegura-luego (deref (k.recursos m)) λ r h.
    Asegura-weaken
      (liberar_mutexes-Avanza ms (record k { recursos = actualizar k.recursos m none }))
      λ k' h. omega arith

pub liberar_pcb-Avanza : (k : Kernel) (p : ℕ) → Asegura (Avanza k) (liberar_pcb k p)
unfolding liberar_pcb
liberar_pcb-Avanza k p = Asegura-luego (deref (k.procesos p)) λ q h.
    Asegura-bind (liberar_mutexes k q.lista_de_mutex_del_proceso)
      (liberar_mutexes-Avanza q.lista_de_mutex_del_proceso k) λ k' h. Asegura-ok _ (omega arith)

module _ (c : Listas) (e : Entorno) where
  -- A new queue is empty.
  sum_of-crear_cola_ready :
      (colas : List Cola) (prioridad : ℕ)
      → sum_of largo_de (crear_cola_ready c e colas prioridad) ≡ sum_of largo_de colas
  unfolding crear_cola_ready
  sum_of-crear_cola_ready colas prioridad =
      let nueva : Cola = record { prioridad = prioridad; cola_multinivel = [] } in
      ground (
        arith,
        sum_of-perm largo_de (c.list_sort_perm (c.list_add colas nueva) comparador_de_colas),
        ap (sum_of largo_de) (c.list_add_lem colas nueva),
        sum_of-append largo_de colas (nueva ∷ []),
      )

  pub crear_tcb-Avanza :
      (k : Kernel) (p prioridad : ℕ) (archivo : List ℕ)
      → Asegura (λ (r : Kernel × Option ℕ). Avanza k r.0) (crear_tcb c e k p prioridad archivo)
  unfolding crear_tcb
  crear_tcb-Avanza k p prioridad archivo = Asegura-luego (deref (k.procesos p)) λ q h.
      let k1 = con_hilo_nuevo k p q.siguiente_tid prioridad archivo in
      Asegura-bind (con_proceso k1 p (con_hilo_anotado c e k.siguiente_direccion))
        (con_proceso-Avanza k1 p (con_hilo_anotado c e k.siguiente_direccion))
        λ k2 h2.
          Asegura-bind (notificar_creacion_hilo e k2 k.siguiente_direccion)
            (notificar_creacion_hilo-Avanza c e k2 k.siguiente_direccion)
            λ (k3, pudo) h3.
              Asegura-ok _ (ground (arith, sum_of-crear_cola_ready k3.colas_de_ready prioridad))

  olvidar_hilo-Avanza :
      (k : Kernel) (p tid pid : ℕ) (h : Option ℕ)
      → Asegura (Avanza k) (olvidar_hilo c e k p tid pid h)
  unfolding olvidar_hilo
  olvidar_hilo-Avanza k p tid pid none = Asegura-ok _ (omega arith)
  olvidar_hilo-Avanza k p tid pid (some b) = con_proceso-Avanza k p _

  pub liberar_tcb-Avanza : (k : Kernel) (a : ℕ) → Asegura (Avanza k) (liberar_tcb c e k a)
  unfolding liberar_tcb
  liberar_tcb-Avanza k a = Asegura-luego (deref (k.hilos a)) λ t h.
      Asegura-luego (pid_del_hilo k t) λ pid h.
        Asegura-bind (con_hilo k a _) (con_hilo-Avanza k a _) λ k1 h1.
          Asegura-luego (deref (k1.procesos t.proceso_padre)) λ padre h.
            Asegura-luego
              (leido k1 (c.list_find padre.lista_de_hilos_del_proceso (es_el_hilo k1 t.tid pid)))
              λ hallado h.
                Asegura-bind (olvidar_hilo c e k1 t.proceso_padre t.tid pid hallado)
                  (olvidar_hilo-Avanza k1 t.proceso_padre t.tid pid hallado)
                  λ k2 h2. Asegura-ok _ (omega arith)

  pub iniciar_proceso-Avanza :
      (k : Kernel) (ruta : List ℕ) (tamanio prioridad : ℕ)
      → Asegura (Avanza k) (iniciar_proceso c e k ruta tamanio prioridad)
  unfolding iniciar_proceso crear_pcb
  iniciar_proceso-Avanza k ruta tamanio prioridad =
      Asegura-bind
        (con_proceso (crear_pcb k).0 k.siguiente_direccion
          (proceso_iniciado ruta tamanio prioridad))
        (con_proceso-Avanza (crear_pcb k).0 k.siguiente_direccion
          (proceso_iniciado ruta tamanio prioridad))
        λ k2 h. Asegura-ok _ (omega arith)
