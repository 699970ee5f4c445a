-- ===== src/Kernel/Caida.antt =====
-- What leaves `hilosEnReady` without its semaphore: `eliminar_hilo_en_exit_de_colas_bloked_y_ready` of
-- kernel/src/mainkernel.c, and the planner after it.
use tp_sistemas_operativos.Base.{
  ℕ, ◌<◌, ◌≡◌, refl, ap, ◌∙◌, true, false, arith, none, some, List, [], ◌∷◌, codes, find?,
  erase_p-none, ==_self, strcmp_eq,
}
use tp_sistemas_operativos.Base.Resultado.{ok, falla}
use tp_sistemas_operativos.Commons.{Listas}
use tp_sistemas_operativos.Kernel.Bajas.{eliminar_de_ready, eliminar_de_colas}
use tp_sistemas_operativos.Kernel.Colas.{algoritmo_to_int, usamos_multicolas, elegir_siguiente_fifo}
use tp_sistemas_operativos.Kernel.Estado.{
  Kernel, Tcb, Pcb, Entorno, es_el_hilo, es_del_proceso, leido, pid_del_hilo, remover_hilo,
}
use tp_sistemas_operativos.Kernel.Planificacion.{
  elegir_siguiente, ejecutar_hilo, planificador_corto_plazo,
}

module _ (c : Listas) (e : Entorno) where
  -- FIFO on an empty queue hands NULL on, which is followed.
  planificador_corto_plazo-vacio :
      (k : Kernel)
      → e.algoritmo_planificacion ≡ codes "FIFO"
      → k.hilos_en_ready ≡ []
      → k.replanificar ≡ true
      → planificador_corto_plazo c e k ≡ falla
  unfolding planificador_corto_plazo elegir_siguiente algoritmo_to_int elegir_siguiente_fifo
      ejecutar_hilo strcmp_eq
  planificador_corto_plazo-vacio k fifo vacia si =
      ground (arith, fifo, c.list_size_lem k.hilos_en_ready)

  sin_cmn : e.algoritmo_planificacion ≡ codes "FIFO" → usamos_multicolas e ≡ false
  unfolding usamos_multicolas strcmp_eq
  sin_cmn fifo = rw fifo

  remover_hilo-none :
      (k : Kernel) (xs : List ℕ) (tid pid : ℕ)
      → find? (es_el_hilo k tid pid) xs ≡ none
      → remover_hilo c k xs tid pid ≡ ok (none, xs)
  unfolding remover_hilo leido
  remover_hilo-none k xs tid pid h = rw (
    c.list_remove_by_condition_lem xs (es_el_hilo k tid pid),
    h,
    erase_p-none (es_el_hilo k tid pid) xs h,
  )

  module _ (k : Kernel) (a : ℕ) (t : Tcb) (p : Pcb) (ptr : k.hilos a ≡ some t)
      (padre : k.procesos t.proceso_padre ≡ some p) where
    propio : es_el_hilo k t.tid p.pid a ≡ true
    unfolding es_el_hilo es_del_proceso
    propio = rw (es_el_hilo, ptr, es_del_proceso, padre, ==_self t.tid) (==_self p.pid)

    remover_hilo-solo : remover_hilo c k (a ∷ []) t.tid p.pid ≡ ok (some a, [])
    unfolding remover_hilo leido pid_del_hilo
    remover_hilo-solo =
        rw (c.list_remove_by_condition_lem (a ∷ []) (es_el_hilo k t.tid p.pid), propio, ptr, padre)

    eliminar_de_ready-solo :
        usamos_multicolas e ≡ false
        → k.hilos_en_ready ≡ a ∷ []
        → eliminar_de_ready c e k t p.pid ≡ ok (record k { hilos_en_ready = [] })
    unfolding eliminar_de_ready
    eliminar_de_ready-solo otro sola =
        let sacado : remover_hilo c k k.hilos_en_ready t.tid p.pid ≡ ok (some a, []) =
          ap (λ (xs : List ℕ). remover_hilo c k xs t.tid p.pid) sola ∙ remover_hilo-solo in
        ground (arith, sacado, otro)

    eliminar_de_colas-solo :
        usamos_multicolas e ≡ false
        → find? (es_el_hilo k t.tid p.pid) k.hilos_en_block ≡ none
        → k.hilos_en_ready ≡ a ∷ []
        → eliminar_de_colas c e k a ≡ ok (record k { hilos_en_ready = [] })
    unfolding eliminar_de_colas pid_del_hilo
    eliminar_de_colas-solo otro afuera sola = ground (
      arith,
      ptr,
      padre,
      remover_hilo-none k k.hilos_en_block t.tid p.pid afuera,
      eliminar_de_ready-solo otro sola,
    )

    -- Under FIFO, the only thread in READY, when it is ended from outside and so leaves its queue, leaves
    -- the unit of `semHiloEnReady` behind: the planner still passes `sem_wait`, and follows NULL.
    pub eliminar_de_colas-planificador_corto_plazo :
        e.algoritmo_planificacion ≡ codes "FIFO"
        → find? (es_el_hilo k t.tid p.pid) k.hilos_en_block ≡ none
        → k.hilos_en_ready ≡ a ∷ []
        → 0 < k.sem_hilo_en_ready
        → (k' : Kernel) × (eliminar_de_colas c e k a ≡ ok k')
          × (0 < k'.sem_hilo_en_ready)
          × (planificador_corto_plazo c e (record k' { replanificar = true }) ≡ falla)
    eliminar_de_colas-planificador_corto_plazo fifo afuera sola hay = (
      record k { hilos_en_ready = [] },
      eliminar_de_colas-solo (sin_cmn fifo) afuera sola,
      hay,
      planificador_corto_plazo-vacio _ fifo refl refl,
    )
