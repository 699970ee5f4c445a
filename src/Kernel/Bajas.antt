-- ===== src/Kernel/Bajas.antt =====
-- The end of threads and processes in kernel/src/mainkernel.c: `finalizar_hilo`,
-- `liberar_recursos_mutex`, `eliminar_hilo_en_exit_de_colas_bloked_y_ready` and `finalizar_proceso`.
use tp_sistemas_operativos.Base.{
  ℕ, zero, suc, ◌+◌, Bool, true, false, Option, none, some, List, [], ◌∷◌, codes, strcmp_eq, ltb,
  modify_p, length, if◌then◌else◌,
}
use tp_sistemas_operativos.Base.Resultado.{Resultado, ok, falla, ◌>>=◌, deref}
use tp_sistemas_operativos.Commons.{Listas}
use tp_sistemas_operativos.Kernel.Altas.{liberar_pcb}
use tp_sistemas_operativos.Kernel.Avisos.{
  notificar_finalizacion_proceso, notificar_finalizacion_hilo,
}
use tp_sistemas_operativos.Kernel.Colas.{
  usamos_multicolas, tiene_prioridad, obtener_cola_multinivel, pasar_a_ready,
}
use tp_sistemas_operativos.Kernel.Estado.{
  Kernel, Tcb, Entorno, Estado, con_hilo, con_proceso, con_recurso, pid_del_hilo, apunta_a,
  remover_hilo, remover_mutex,
}
use tp_sistemas_operativos.Utils.Recepcion.{recibir_una_cadena, cadena_c}

unfoldable pub es_exit : Estado → Bool
es_exit Estado.exit = true
es_exit _ = false

module _ (c : Listas) (e : Entorno) where
  open c use {list_add, list_size, list_remove, list_is_empty}

  -- The thread is looked for among the blocked ones, and then among the ready ones. The callers have
  -- followed `unHilo->procesoPadre` before.
  unfoldable pub eliminar_de_ready : Kernel → Tcb → ℕ → Resultado Kernel
  unfolding usamos_multicolas obtener_cola_multinivel remover_hilo
  eliminar_de_ready k t pid = do
    (h1, ready) ← remover_hilo c k k.hilos_en_ready t.tid pid
    let k1 = record k { hilos_en_ready = ready }
    if usamos_multicolas e
        then (do
          cola_elegida ← obtener_cola_multinivel c e k1.colas_de_ready t.prioridad
          if ltb 0 (list_size cola_elegida.cola_multinivel)
              then (do
                (h2, resto) ← remover_hilo c k1 cola_elegida.cola_multinivel t.tid pid
                ok (record k1 {
                  colas_de_ready =
                      modify_p (tiene_prioridad t.prioridad)
                        (λ q. record q { cola_multinivel = resto }) k1.colas_de_ready;
                }))
              else ok k1)
        else ok k1

  unfoldable pub eliminar_de_colas : Kernel → ℕ → Resultado Kernel
  unfolding eliminar_de_ready pid_del_hilo remover_hilo
  eliminar_de_colas k a = do
    t ← deref (k.hilos a)
    pid ← pid_del_hilo k t
    (hallado, block) ← remover_hilo c k k.hilos_en_block t.tid pid
    let k1 = record k { hilos_en_block = block }
    elim hallado [ none ↦ eliminar_de_ready k1 t pid | some b ↦ ok k1 ]

  -- The mutex goes to the first thread of its queue, which stops waiting for it.
  unfoldable pub asignar_al_primero : Kernel → ℕ → List ℕ → Resultado (Kernel × ℕ)
  unfolding con_recurso con_hilo remover_mutex
  asignar_al_primero k m nombre = do
    r ← deref (k.recursos m)
    let (primero, resto) = list_remove r.hilos_bloqueados 0
    k1 ← con_recurso k m (λ r. record r { tomado_por = primero; hilos_bloqueados = resto })
    nuevo ← deref primero
    t ← deref (k1.hilos nuevo)
    (sacado, espera) ← remover_mutex c k1 t.mutex_en_espera nombre
    k2 ← con_hilo k1 nuevo (λ t. record t { mutex_en_espera = espera })
    ok (k2, nuevo)

  -- The thread of the ids given leaves `hilosEnBlock`, if it is there.
  unfoldable pub desbloquear : Kernel → ℕ → ℕ → Resultado Kernel
  unfolding remover_hilo pasar_a_ready
  desbloquear k tid pid = do
    (hallado, block) ← remover_hilo c k k.hilos_en_block tid pid
    let k1 = record k { hilos_en_block = block }
    elim hallado [ none ↦ ok k1 | some b ↦ pasar_a_ready c e k1 b ]

  -- One round of `liberar_recursos_mutex`. The thread that is looked for among the blocked ones is the
  -- one that ends.
  unfoldable pub liberar_recurso : Kernel → ℕ → ℕ → ℕ → ℕ → Resultado Kernel
  unfolding remover_hilo con_recurso apunta_a asignar_al_primero desbloquear
  liberar_recurso k a tid pid m = do
    r ← deref (k.recursos m)
    (sacado, resto) ← remover_hilo c k r.hilos_bloqueados tid pid
    k1 ← con_recurso k m (λ r. record r { hilos_bloqueados = resto })
    if apunta_a r.tomado_por a
        then (if ltb 0 (list_size resto)
            then (do (k2, nuevo) ← asignar_al_primero k1 m r.nombre_recurso; desbloquear k2 tid pid)
            else con_recurso k1 m (λ r. record r { tomado_por = none }))
        else ok k1

  unfoldable pub liberar_recursos : Kernel → ℕ → ℕ → ℕ → List ℕ → Resultado Kernel
  unfolding liberar_recurso
  liberar_recursos k a tid pid [] = ok k
  liberar_recursos k a tid pid (m ∷ ms) = do
    k' ← liberar_recurso k a tid pid m
    liberar_recursos k' a tid pid ms

  -- The loop goes over a list that its body does not change.
  unfoldable pub liberar_recursos_mutex : Kernel → ℕ → Resultado Kernel
  unfolding liberar_recursos
  liberar_recursos_mutex k a = do
    t ← deref (k.hilos a)
    padre ← deref (k.procesos t.proceso_padre)
    liberar_recursos k a t.tid padre.pid padre.lista_de_mutex_del_proceso

  -- The thread that waited for the end of this one; that it is not in `hilosEnBlock` is logged, and then
  -- NULL is followed.
  unfoldable pub despertar_por_join : Kernel → Option ℕ → Resultado Kernel
  unfolding pid_del_hilo remover_hilo con_hilo pasar_a_ready
  despertar_por_join k none = ok k
  despertar_por_join k (some j) = do
    u ← deref (k.hilos j)
    pid ← pid_del_hilo k u
    (hallado, block) ← remover_hilo c k k.hilos_en_block u.tid pid
    b ← deref hallado
    k1 ←
        con_hilo (record k { hilos_en_block = block }) b
          (λ t. record t { bloqueado_por_join = false })
    pasar_a_ready c e k1 b

  unfoldable pub finalizar_hilo : Kernel → ℕ → Resultado Kernel
  unfolding con_hilo despertar_por_join liberar_recursos_mutex
  finalizar_hilo k a = do
    k1 ← con_hilo k a (λ t. record t { estado_del_hilo = Estado.exit })
    k2 ← notificar_finalizacion_hilo e (record k1 { hilos_en_exit = list_add k1.hilos_en_exit a }) a
    t ← deref (k2.hilos a)
    k3 ← despertar_por_join k2 t.hilo_bloqueado_por_join
    k4 ← liberar_recursos_mutex k3 a
    ok (record k4 { sem_hilo_en_exit = k4.sem_hilo_en_exit + 1 })

  -- A thread that is not in EXIT yet is ended and leaves its queue.
  unfoldable pub finalizar_si_no_termino : Kernel → ℕ → Resultado Kernel
  unfolding es_exit finalizar_hilo eliminar_de_colas
  finalizar_si_no_termino k a = do
    t ← deref (k.hilos a)
    if es_exit t.estado_del_hilo then ok k else (do k1 ← finalizar_hilo k a; eliminar_de_colas k1 a)

  -- `for (i = 0; i < list_size(lista); i++)`, which takes out the element `i` each time; the rounds are
  -- bounded by fuel, and `agotado` is what there is without any left.
  unfoldable pub finalizar_hilos : Resultado Kernel → ℕ → ℕ → Kernel → ℕ → Resultado Kernel
  unfolding con_proceso finalizar_si_no_termino
  finalizar_hilos agotado zero i k p = agotado
  finalizar_hilos agotado (suc fuel) i k p = do
    proceso ← deref (k.procesos p)
    if ltb i (list_size proceso.lista_de_hilos_del_proceso)
        then (do
          let (tcb, resto) = list_remove proceso.lista_de_hilos_del_proceso i
          k1 ← con_proceso k p (λ q. record q { lista_de_hilos_del_proceso = resto })
          a ← deref tcb
          k2 ← finalizar_si_no_termino k1 a
          finalizar_hilos agotado fuel (i + 1) k2 p)
        else ok k

  -- The `if` on the answer stands before the `for`, since nothing else follows it.
  unfoldable pub finalizar_si_exit : Kernel → ℕ → List ℕ → Resultado Kernel
  unfolding finalizar_hilos
  finalizar_si_exit k p respuesta =
      if strcmp_eq respuesta (codes "EXIT")
      then (do
        proceso ← deref (k.procesos p)
        finalizar_hilos falla (length proceso.lista_de_hilos_del_proceso + 1) 0 k p)
      else ok k

  unfoldable pub finalizar_proceso : Kernel → ℕ → Resultado Kernel
  unfolding finalizar_si_exit liberar_pcb
  finalizar_proceso k p = do
    (bloque, s) ← recibir_una_cadena k.socket_cpu_dispatch
    respuesta ← cadena_c bloque
    k2 ← finalizar_si_exit (record k { socket_cpu_dispatch = s }) p respuesta
    k3 ← notificar_finalizacion_proceso e k2 p
    k4 ← liberar_pcb k3 p
    ok (
        if list_is_empty k4.procesos_en_new
        then k4
        else record k4 { sem_proceso_en_new = k4.sem_proceso_en_new + 1 })
