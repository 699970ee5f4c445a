-- ===== src/Kernel/Semaforo/Eleccion.antt =====
-- The choice of the next thread, against the semaphores.
use tp_sistemas_operativos.Base.{
  ℕ, ◌+◌, ◌≤◌, ◌≡◌, ◌⊎◌, inl, inr, refl, Bool, true, arith, Option, none, some, List, [], ◌∷◌,
  length, ltb, find?, erase_idx, length-erase_p, fold1?-menor, sym, ap, ◌∙◌, ==_self,
  sum_of-modify_p, Option-cases, Bool-cases, ◌==◌,
}
use tp_sistemas_operativos.Base.Resultado.{ok}
use tp_sistemas_operativos.Commons.{Listas}
use tp_sistemas_operativos.Kernel.Asegura.{
  Asegura, Asegura-bind, Asegura-luego, Asegura-ok, Asegura-salir, Asegura-falla, Asegura-if,
}
use tp_sistemas_operativos.Kernel.Colas.{
  algoritmo_to_int, leer_hilos, minima_prioridad, sacar_elegido, elegir_siguiente_fifo,
  elegir_siguiente_prioridad, elegir_siguiente_colas,
}
use tp_sistemas_operativos.Kernel.Eleccion.{
  con_hilos, leer_hilos-Leidos, Leidos-find?, find?-self, elegir_siguiente_colas-Elige,
}
use tp_sistemas_operativos.Kernel.Estado.{
  Kernel, Tcb, Entorno, pid_del_hilo, es_el_hilo, es_del_proceso, leido, remover_hilo,
}
use tp_sistemas_operativos.Kernel.Planificacion.{elegir_siguiente}
use tp_sistemas_operativos.Kernel.Semaforo.Colas.{largo_de, encolados}

-- A thread that was chosen is in no queue any more, and nothing but the queues of READY changes.
abbrev pub Elegido : Kernel → Kernel × Option ℕ → Type 0
Elegido k (k', h) =
    ((h ≡ none) ⊎ (encolados k' + 1 ≤ encolados k))
    × (k'.sem_hilo_en_ready ≡ k.sem_hilo_en_ready)
    × (length k'.hilos_en_exit ≡ length k.hilos_en_exit)
    × (k'.sem_hilo_en_exit ≡ k.sem_hilo_en_exit)
    × (length k'.dispositivo_io ≡ length k.dispositivo_io)
    × (k'.sem_io ≡ k.sem_io)

length-erase_idx :
    (xs : List ℕ) → ltb 0 (length xs) ≡ true → length (erase_idx xs 0) + 1 ≡ length xs
length-erase_idx [] h = absurd (cc)
length-erase_idx (x ∷ xs) h = omega arith

-- A search that meets an element finds one.
find?-some :
    (p q : ℕ → Bool) (xs : List ℕ) (a : ℕ)
    → find? p xs ≡ some a
    → q a ≡ true
    → (b : ℕ) × (find? q xs ≡ some b)
find?-some p q [] a h t = cc
find?-some p q (x ∷ xs) a h t = elim (Bool-cases (q x)) [
  | inl si ↦ (x, rw si)
  | inr falta ↦ rw falta (find?-some p q xs a (ground arith) t)
]

es_el_hilo_propio :
    (k : Kernel) (a : ℕ) (t : Tcb) (pid : ℕ)
    → k.hilos a ≡ some t
    → pid_del_hilo k t ≡ ok pid
    → es_el_hilo k t.tid pid a ≡ true
unfolding es_el_hilo es_del_proceso pid_del_hilo
es_el_hilo_propio k a t pid e h = elim (Option-cases (k.procesos t.proceso_padre)) [
  | inl nulo ↦ rw (es_el_hilo, e, es_del_proceso, nulo, ==_self t.tid)
  | inr (p, padre) ↦ rw (es_el_hilo, e, es_del_proceso, padre, ==_self t.tid) (ground arith)
]

module _ (c : Listas) (e : Entorno) (k : Kernel) where
  elegir_siguiente_fifo-Elegido : Elegido k (elegir_siguiente_fifo c e k)
  unfolding elegir_siguiente_fifo
  elegir_siguiente_fifo-Elegido = ground (
    arith,
    c.list_size_lem k.hilos_en_ready,
    c.list_remove_lem k.hilos_en_ready 0,
    length-erase_idx k.hilos_en_ready,
  )

  elegir_siguiente_colas-Elegido : Asegura (Elegido k) (elegir_siguiente_colas c e k)
  elegir_siguiente_colas-Elegido = elim (elegir_siguiente_colas-Elige c e k) [
    | inl (fin, vacias) ↦ rw fin Asegura-salir
    | inr (q, a, resto, hallada, llena, menores, paso) ↦ rw paso (
        Asegura-ok _ (
          inr (
              omega (
                arith,
                ap length llena,
                sum_of-modify_p (con_hilos q) largo_de (λ r. record r { cola_multinivel = resto })
                    k.colas_de_ready q hallada,
              )),
          refl,
          refl,
          refl,
          refl,
          refl,
        ))
  ]

  sacar_elegido-Elegido :
      (o : Option (ℕ × Tcb))
      → ((a : ℕ) (t : Tcb)
          → o ≡ some (a, t)
          → (k.hilos a ≡ some t) × (find? (λ b. b == a) k.hilos_en_ready ≡ some a))
      → Asegura (Elegido k) (sacar_elegido c e k o)
  unfolding sacar_elegido remover_hilo
  sacar_elegido-Elegido none h = Asegura-ok _ (inl refl, refl, refl, refl, refl, refl)
  sacar_elegido-Elegido (some (a, t)) h =
      let (ptr, esta) = h a t refl in
      Asegura-luego (pid_del_hilo k t) λ pid padre.
        let (b, hallado) =
          find?-some (λ b. b == a) (es_el_hilo k t.tid pid) k.hilos_en_ready a esta
            (es_el_hilo_propio k a t pid ptr padre) in
        Asegura-bind (remover_hilo c k k.hilos_en_ready t.tid pid) (menos t.tid pid b hallado)
          λ (s, resto) m. Asegura-ok _ (inr (omega arith), refl, refl, refl, refl, refl)
    where
      menos :
          (tid pid b : ℕ)
          → find? (es_el_hilo k tid pid) k.hilos_en_ready ≡ some b
          → Asegura
              (λ (r : Option ℕ × List ℕ). length r.1 + 1 ≡ length k.hilos_en_ready)
              (remover_hilo c k k.hilos_en_ready tid pid)
      menos tid pid b hallado =
          Asegura-luego
            (leido k (c.list_remove_by_condition k.hilos_en_ready (es_el_hilo k tid pid)).0)
            λ s h. Asegura-ok _ (
              rw (c.list_remove_by_condition_lem k.hilos_en_ready (es_el_hilo k tid pid))
                (omega (arith, length-erase_p (es_el_hilo k tid pid) k.hilos_en_ready b hallado)))

  elegir_siguiente_prioridad-Elegido : Asegura (Elegido k) (elegir_siguiente_prioridad c e k)
  unfolding elegir_siguiente_prioridad minima_prioridad
  elegir_siguiente_prioridad-Elegido = Asegura-luego (leer_hilos k k.hilos_en_ready) λ ys leidos.
      sacar_elegido-Elegido (c.list_get_maximum ys minima_prioridad) λ a t maximo.
        let l = leer_hilos-Leidos k k.hilos_en_ready ys leidos in
        let (menores, primero) =
          fold1?-menor (λ (y : ℕ × Tcb). y.1.prioridad) ys (a, t)
            (sym (c.list_get_maximum_lem ys minima_prioridad) ∙ maximo) in
        let (hallado, ptr) = Leidos-find? k t.prioridad k.hilos_en_ready ys a t l primero in
        (ptr, find?-self _ k.hilos_en_ready a hallado)

  pub elegir_siguiente-Elegido : Asegura (Elegido k) (elegir_siguiente c e k)
  unfolding elegir_siguiente
  elegir_siguiente-Elegido =
      Asegura-if (algoritmo_to_int e == 1) (λ fifo. Asegura-ok _ elegir_siguiente_fifo-Elegido)
        (λ otro.
          Asegura-if (algoritmo_to_int e == 2) (λ cmn. elegir_siguiente_colas-Elegido)
            (λ otro.
              Asegura-if (algoritmo_to_int e == 3) (λ prio. elegir_siguiente_prioridad-Elegido)
                (λ otro. Asegura-falla)))
