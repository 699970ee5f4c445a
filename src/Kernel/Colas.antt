-- ===== src/Kernel/Colas.antt =====
-- The queues of ready threads: `crear_colaReady`, `transicion_a_ready` and the three ways to choose
-- the next thread, of kernel/src/pcbYtcb.c and kernel/src/mainkernel.c.
use tp_sistemas_operativos.Base.{
  ℕ, ◌+◌, Bool, true, false, not, ◌&&◌, Option, none, some, List, [], ◌∷◌, codes, strcmp_eq, ◌==◌,
  ltb, leb, modify_p, if◌then◌else◌,
}
use tp_sistemas_operativos.Base.Resultado.{Resultado, ok, salir, ◌>>=◌, deref}
use tp_sistemas_operativos.Commons.{Listas}
use tp_sistemas_operativos.Kernel.Estado.{
  Kernel, Tcb, Cola, Entorno, Estado, con_hilo, pid_del_hilo, remover_hilo,
}

unfoldable pub usamos_multicolas : Entorno → Bool
usamos_multicolas e = strcmp_eq e.algoritmo_planificacion (codes "CMN")

-- -1 as the bit pattern of an `int`.
unfoldable pub algoritmo_to_int : Entorno → ℕ
algoritmo_to_int e =
    if strcmp_eq e.algoritmo_planificacion (codes "FIFO")
    then 1
    else if strcmp_eq e.algoritmo_planificacion (codes "CMN")
    then 2
    else if strcmp_eq e.algoritmo_planificacion (codes "PRIORIDADES")
    then 3
    else 4294967295

unfoldable pub comparador_de_colas : Cola → Cola → Bool
comparador_de_colas a b = ltb a.prioridad b.prioridad

abbrev pub tiene_prioridad : ℕ → Cola → Bool
tiene_prioridad prioridad cola = cola.prioridad == prioridad

-- `minimaPrioridad` and `minimaPrioridad2`: the first of two, unless the second goes before it.
unfoldable pub minima_prioridad : ℕ × Tcb → ℕ × Tcb → ℕ × Tcb
minima_prioridad hilo1 hilo2 = if leb hilo1.1.prioridad hilo2.1.prioridad then hilo1 else hilo2

unfoldable pub minima_prioridad2 : Cola → Cola → Cola
minima_prioridad2 cola1 cola2 = if leb cola1.prioridad cola2.prioridad then cola1 else cola2

-- The threads behind the pointers of a list.
unfoldable pub leer_hilos : Kernel → List ℕ → Resultado (List (ℕ × Tcb))
leer_hilos k [] = ok []
leer_hilos k (a ∷ as') = do t ← deref (k.hilos a); resto ← leer_hilos k as'; ok ((a, t) ∷ resto)

-- What `transicion_a_ready` writes in a thread.
abbrev pub listo : Tcb → Tcb
listo t = record t { estado_del_hilo = Estado.ready; fin_deq = 0; clock_contando = false }

module _ (c : Listas) (e : Entorno) where
  open c use {
    list_add, list_size, list_find, list_remove, list_remove_by_condition, list_sort, list_filter,
    list_is_empty, list_get_minimum, list_get_maximum,
  }

  unfoldable pub hilo_esperando_mutex : Tcb → Bool
  hilo_esperando_mutex t = not (list_is_empty t.mutex_en_espera)

  -- Without a queue of the priority the module ends.
  unfoldable pub obtener_cola_multinivel : List Cola → ℕ → Resultado Cola
  obtener_cola_multinivel colas prioridad = elim (list_find colas (tiene_prioridad prioridad)) [
    | none ↦ salir
    | some cola ↦ ok cola
  ]

  unfoldable pub crear_cola_ready : List Cola → ℕ → List Cola
  unfolding usamos_multicolas comparador_de_colas
  crear_cola_ready colas prioridad =
      if usamos_multicolas e
      then (elim (list_find colas (tiene_prioridad prioridad)) [
        | none ↦
            list_sort (list_add colas (record { prioridad = prioridad; cola_multinivel = [] }))
              comparador_de_colas
        | some cola ↦ colas
      ])
      else colas

  -- The thread goes to the end of `hilosEnReady`, or of the queue of its priority.
  unfoldable pub encolar : Kernel → ℕ → ℕ → Resultado Kernel
  unfolding usamos_multicolas obtener_cola_multinivel
  encolar k a prioridad =
      if usamos_multicolas e
      then (do
        cola_elegida ← obtener_cola_multinivel k.colas_de_ready prioridad
        ok (record k {
          colas_de_ready =
              modify_p (tiene_prioridad prioridad)
                (λ q. record q { cola_multinivel = list_add q.cola_multinivel a }) k.colas_de_ready;
        }))
      else ok (record k { hilos_en_ready = list_add k.hilos_en_ready a })

  unfoldable pub puede_correr : Tcb → Bool
  unfolding hilo_esperando_mutex
  puede_correr t =
      not (hilo_esperando_mutex t) && (not t.bloqueado_por_join && not t.bloqueado_por_io)

  unfoldable pub transicion_a_ready : Kernel → ℕ → Resultado (Kernel × Bool)
  unfolding puede_correr encolar con_hilo
  transicion_a_ready k a = do
    t ← deref (k.hilos a)
    if puede_correr t
        then (do
          k1 ← encolar k a t.prioridad
          k2 ← con_hilo k1 a listo
          ok (record k2 { sem_hilo_en_ready = k2.sem_hilo_en_ready + 1 }, true))
        else ok (k, false)

  -- What every caller that took the thread from `hilosEnBlock` does: a thread that is not ready yet goes
  -- back there.
  unfoldable pub pasar_a_ready : Kernel → ℕ → Resultado Kernel
  unfolding transicion_a_ready
  pasar_a_ready k a = do
    (k', paso) ← transicion_a_ready k a
    ok (if paso then k' else record k' { hilos_en_block = list_add k'.hilos_en_block a })

  unfoldable pub elegir_siguiente_fifo : Kernel → Kernel × Option ℕ
  elegir_siguiente_fifo k =
      if ltb 0 (list_size k.hilos_en_ready)
      then (let (candidato, resto) = list_remove k.hilos_en_ready 0 in
          (record k { hilos_en_ready = resto }, candidato))
      else (k, none)

  -- The thread chosen is taken out by its ids; on NULL there is nothing to compare.
  unfoldable pub sacar_elegido : Kernel → Option (ℕ × Tcb) → Resultado (Kernel × Option ℕ)
  unfolding pid_del_hilo remover_hilo
  sacar_elegido k none = ok (k, none)
  sacar_elegido k (some (a, t)) = do
    pid ← pid_del_hilo k t
    (sacado, resto) ← remover_hilo c k k.hilos_en_ready t.tid pid
    ok (record k { hilos_en_ready = resto }, some a)

  -- Every thread of the list is read.
  unfoldable pub elegir_siguiente_prioridad : Kernel → Resultado (Kernel × Option ℕ)
  unfolding leer_hilos minima_prioridad sacar_elegido
  elegir_siguiente_prioridad k = do
    candidatos ← leer_hilos k k.hilos_en_ready
    sacar_elegido k (list_get_maximum candidatos minima_prioridad)

  unfoldable pub no_esta_vacia : Cola → Bool
  no_esta_vacia cola = not (list_is_empty cola.cola_multinivel)

  -- The queue behind the pointer `elegida`: the first of its priority that is not empty.
  unfoldable pub es_la_elegida : Cola → Cola → Bool
  unfolding no_esta_vacia
  es_la_elegida elegida q = tiene_prioridad elegida.prioridad q && no_esta_vacia q

  unfoldable pub elegir_siguiente_colas : Kernel → Resultado (Kernel × Option ℕ)
  unfolding minima_prioridad2 no_esta_vacia es_la_elegida
  elegir_siguiente_colas k = do
    let colas_con_hilos = list_filter k.colas_de_ready no_esta_vacia
    elim (list_get_minimum colas_con_hilos minima_prioridad2) [
      | none ↦ salir
      | some elegida ↦
          let (candidato, resto) = list_remove elegida.cola_multinivel 0 in
          ok (
            record k {
              colas_de_ready =
                  modify_p (es_la_elegida elegida) (λ q. record q { cola_multinivel = resto })
                    k.colas_de_ready;
            },
            candidato,
          )
    ]
