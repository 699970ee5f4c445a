-- ===== src/Kernel/Eleccion.antt =====
-- Which thread each algorithm of the planner takes: `elegirSiguienteHiloAEjecutarPRIORIDAD` and
-- `elegirSiguienteHiloAEjecutarCOLAS` of kernel/src/mainkernel.c.
use mathlib.Core.Path.{fun_ext}
use tp_sistemas_operativos.Base.{
  ℕ, ◌≤◌, ◌≡◌, ◌≢◌, ◌⊎◌, inl, inr, refl, sym, ap, ◌∙◌, subst, Bool, true, false, not, ◌&&◌, arith,
  none, some, List, [], ◌∷◌, length, ◌==◌, ==_self, Bool-cases, Option-cases, find?, erase_p,
  modify_p, keep, All, All-find?, fold1?, fold_from, fold1?-menor, find?-keep, get_elem?, erase_idx,
  find?_sound,
}
use tp_sistemas_operativos.Base.Resultado.{ok, salir, deref, >>=-eq-ok, deref-eq-ok}
use tp_sistemas_operativos.Commons.{Listas}
use tp_sistemas_operativos.Kernel.Colas.{
  leer_hilos, sacar_elegido, elegir_siguiente_prioridad, elegir_siguiente_colas, minima_prioridad,
  minima_prioridad2, no_esta_vacia, es_la_elegida,
}
use tp_sistemas_operativos.Kernel.Estado.{
  Kernel, Tcb, Pcb, Cola, Entorno, es_el_hilo, es_del_proceso, leido, remover_hilo, pid_del_hilo,
}

-- A pointer to a thread whose process is there.
abbrev pub Vivo : Kernel → ℕ → Type 0
Vivo k a = (t : Tcb) × (p : Pcb) × (k.hilos a ≡ some t) × (k.procesos t.proceso_padre ≡ some p)

-- No two threads have the same id in processes of the same id.
abbrev pub Unicos : Kernel → Type 0
Unicos k =
    (a b : ℕ) (t u : Tcb) (p q : Pcb)
    → k.hilos a ≡ some t
    → k.procesos t.proceso_padre ≡ some p
    → k.hilos b ≡ some u
    → k.procesos u.proceso_padre ≡ some q
    → t.tid ≡ u.tid
    → p.pid ≡ q.pid
    → a ≡ b

-- The priority of the thread behind a pointer.
abbrev pub prioridad_de : Kernel → ℕ → ℕ
prioridad_de k a = elim (k.hilos a) [ none ↦ 0 | some t ↦ t.prioridad ]

module _ {ℓ} {A : Type ℓ} (p q : A → Bool) where
  find?-ext : (xs : List A) → All (λ x. p x ≡ q x) xs → find? p xs ≡ find? q xs
  find?-ext [] h = refl
  find?-ext (x ∷ xs) h = rw (h.0, find?-ext xs h.1)

  erase_p-ext : (xs : List A) → All (λ x. p x ≡ q x) xs → erase_p p xs ≡ erase_p q xs
  erase_p-ext [] h = refl
  erase_p-ext (x ∷ xs) h = rw (h.0, erase_p-ext xs h.1)

-- What `leer_hilos` returns: each pointer with what it points to.
abbrev pub Leidos : Kernel → List ℕ → List (ℕ × Tcb) → Type 0
Leidos k [] [] = Unit
Leidos k (x ∷ xs) [] = ⊥
Leidos k [] (y ∷ ys) = ⊥
Leidos k (x ∷ xs) (y ∷ ys) = (y.0 ≡ x) × (k.hilos x ≡ some y.1) × Leidos k xs ys

module _ (k : Kernel) where
  leer_hilos-Vivo :
      (xs : List ℕ)
      → All (Vivo k) xs
      → (ys : List (ℕ × Tcb)) × (leer_hilos k xs ≡ ok ys) × Leidos k xs ys
  unfolding leer_hilos
  leer_hilos-Vivo [] h = ([], refl, tt)
  leer_hilos-Vivo (x ∷ xs) (v, h) =
      let (t, p, e, f) = v in
      let (ys, r, l) = leer_hilos-Vivo xs h in ((x, t) ∷ ys, rw (e, r), (refl, e, l))

  pub leer_hilos-Leidos :
      (xs : List ℕ) (ys : List (ℕ × Tcb)) → leer_hilos k xs ≡ ok ys → Leidos k xs ys
  unfolding leer_hilos
  leer_hilos-Leidos [] [] h = tt
  leer_hilos-Leidos [] (y ∷ ys) h = absurd (cc)
  leer_hilos-Leidos (x ∷ xs) ys h =
      let (t, e, h1) = >>=-eq-ok (deref (k.hilos x)) _ h in
      let (zs, f, h2) = >>=-eq-ok (leer_hilos k xs) _ h1 in
      let igual : ((x, t) ∷ zs) ≡ ys = cc in
      subst (Leidos k (x ∷ xs)) igual (refl, deref-eq-ok (k.hilos x) e, leer_hilos-Leidos xs zs f)

  -- What was found among the threads read was found among the pointers.
  pub Leidos-find? :
      (n : ℕ) (xs : List ℕ) (ys : List (ℕ × Tcb)) (a : ℕ) (t : Tcb)
      → Leidos k xs ys
      → find? (λ y. y.1.prioridad == n) ys ≡ some (a, t)
      → (find? (λ b. prioridad_de k b == n) xs ≡ some a) × (k.hilos a ≡ some t)
  Leidos-find? n [] [] a t l h = cc
  Leidos-find? n (x ∷ xs) [] a t l h = elim l [ ]
  Leidos-find? n [] (y ∷ ys) a t l h = elim l [ ]
  Leidos-find? n (x ∷ xs) (y ∷ ys) a t (e, f, l) h =
      let prio : prioridad_de k x ≡ y.1.prioridad = rw (f, prioridad_de) in
      elim (Bool-cases (y.1.prioridad == n)) [
        | inl si ↦ let r : y ≡ (a, t) = ground arith in (rw (prio, si) (cc), cc)
        | inr no' ↦ rw (prio, no') (Leidos-find? n xs ys a t l (rw no' at h))
      ]

  Leidos-All :
      (n : ℕ) (xs : List ℕ) (ys : List (ℕ × Tcb))
      → Leidos k xs ys
      → All (λ y. n ≤ y.1.prioridad) ys
      → All (λ b. n ≤ prioridad_de k b) xs
  Leidos-All n [] [] l h = tt
  Leidos-All n (x ∷ xs) [] l h = elim l [ ]
  Leidos-All n [] (y ∷ ys) l h = elim l [ ]
  Leidos-All n (x ∷ xs) (y ∷ ys) (e, f, l) h = (rw (f, prioridad_de) h.0, Leidos-All n xs ys l h.1)

  -- Among live threads the ids tell one thread from the others.
  pub es_el_hilo-Unicos :
      (a : ℕ) (t : Tcb) (p : Pcb) (xs : List ℕ)
      → Unicos k
      → k.hilos a ≡ some t
      → k.procesos t.proceso_padre ≡ some p
      → All (Vivo k) xs
      → All (λ b. es_el_hilo k t.tid p.pid b ≡ (b == a)) xs
  unfolding es_el_hilo es_del_proceso
  es_el_hilo-Unicos a t p [] u e f h = tt
  es_el_hilo-Unicos a t p (b ∷ bs) unicos e f (v, h) =
      let (u, q, g, i) = v in
      (
        elim (Bool-cases (b == a)) [
          | inl si ↦
              let misma : b ≡ a = ground arith in
              let hilo : u ≡ t = ground (arith, ap k.hilos misma) in
              rw (es_el_hilo, g, hilo, es_del_proceso, f, ==_self t.tid, ==_self p.pid, si)
          | inr otro ↦
              rw (es_el_hilo, g, es_del_proceso, i, otro)
                (ground (arith, unicos a b t u p q e f g i))
        ],
        es_el_hilo-Unicos a t p bs unicos e f h,
      )

  Leidos-fold1? :
      (xs : List ℕ) (ys : List (ℕ × Tcb)) (f : ℕ × Tcb → ℕ × Tcb → ℕ × Tcb)
      → Leidos k xs ys
      → xs ≢ []
      → (a : ℕ) × (t : Tcb) × (fold1? f ys ≡ some (a, t))
  Leidos-fold1? [] ys f l h = absurd (h refl)
  Leidos-fold1? (x ∷ xs) [] f l h = elim l [ ]
  Leidos-fold1? (x ∷ xs) (y ∷ ys) f l h = ((fold_from f y ys).0, (fold_from f y ys).1, refl)

pub find?-self :
    (p : ℕ → Bool) (xs : List ℕ) (a : ℕ) → find? p xs ≡ some a → find? (λ b. b == a) xs ≡ some a
find?-self p [] a h = cc
find?-self p (x ∷ xs) a h = elim (Bool-cases (p x)) [
  | inl si ↦ let misma : x ≡ a = ground arith in rw (misma, ==_self a)
  | inr otro ↦ ground (arith, find?-self p xs a)
]

module _ (c : Listas) (k : Kernel) (unicos : Unicos k) (a : ℕ) (t : Tcb) (p : Pcb)
    (ptr : k.hilos a ≡ some t) (padre : k.procesos t.proceso_padre ≡ some p) where
  -- A search by ids takes out of a list of live threads the pointer that has them.
  pub remover_hilo-Unicos :
      (xs : List ℕ)
      → All (Vivo k) xs
      → find? (λ b. b == a) xs ≡ some a
      → remover_hilo c k xs t.tid p.pid ≡ ok (some a, erase_p (λ b. b == a) xs)
  unfolding remover_hilo leido pid_del_hilo
  remover_hilo-Unicos xs vivos esta =
      let iguales = es_el_hilo-Unicos k a t p xs unicos ptr padre vivos in
      rw (
        c.list_remove_by_condition_lem xs (es_el_hilo k t.tid p.pid),
        find?-ext (es_el_hilo k t.tid p.pid) (λ b. b == a) xs iguales,
        erase_p-ext (es_el_hilo k t.tid p.pid) (λ b. b == a) xs iguales,
        esta,
        ptr,
        padre,
      )

module _ (c : Listas) (e : Entorno) (k : Kernel) where
  elegir_siguiente_prioridad_paso :
      (ys : List (ℕ × Tcb)) (a : ℕ) (t : Tcb) (p : Pcb) (zs : List ℕ)
      → leer_hilos k k.hilos_en_ready ≡ ok ys
      → fold1? minima_prioridad ys ≡ some (a, t)
      → k.procesos t.proceso_padre ≡ some p
      → remover_hilo c k k.hilos_en_ready t.tid p.pid ≡ ok (some a, zs)
      → elegir_siguiente_prioridad c e k ≡ ok (record k { hilos_en_ready = zs }, some a)
  unfolding elegir_siguiente_prioridad sacar_elegido pid_del_hilo
  elegir_siguiente_prioridad_paso ys a t p zs leidos minimo padre sacado =
      rw (leidos, c.list_get_maximum_lem ys minima_prioridad, minimo, padre, sacado)

  -- With threads in READY, all alive and told apart by their ids, the planner by priorities takes the
  -- first thread of the least priority number, and takes exactly that one out of the queue.
  pub elegir_siguiente_prioridad-Elige :
      k.hilos_en_ready ≢ []
      → All (Vivo k) k.hilos_en_ready
      → Unicos k
      → (a : ℕ) × (elegir_siguiente_prioridad c e k
          ≡ ok (record k { hilos_en_ready = erase_p (λ b. b == a) k.hilos_en_ready }, some a))
        × All (λ b. prioridad_de k a ≤ prioridad_de k b) k.hilos_en_ready
        × (find? (λ b. prioridad_de k b == prioridad_de k a) k.hilos_en_ready ≡ some a)
  unfolding minima_prioridad
  elegir_siguiente_prioridad-Elige hay vivos unicos =
      let xs = k.hilos_en_ready in
      let clave = λ (y : ℕ × Tcb). y.1.prioridad in
      let (ys, leidos, l) = leer_hilos-Vivo k xs vivos in
      let (a, t, minimo) = Leidos-fold1? k xs ys minima_prioridad l hay in
      let (menores, primero) = fold1?-menor clave ys (a, t) minimo in
      let (hallado, ptr) = Leidos-find? k t.prioridad xs ys a t l primero in
      let prio : prioridad_de k a ≡ t.prioridad = rw (ptr, prioridad_de) in
      let (t', p, ptr', padre') =
        All-find? (Vivo k) (λ b. prioridad_de k b == t.prioridad) xs vivos hallado in
      let padre : k.procesos t.proceso_padre ≡ some p = ground (arith, ptr, ptr', padre') in
      (
        a,
        elegir_siguiente_prioridad_paso ys a t p (erase_p (λ b. b == a) xs) leidos minimo padre
            (remover_hilo-Unicos c k unicos a t p ptr padre xs vivos (find?-self _ xs a hallado)),
        subst (λ (n : ℕ). All (λ b. n ≤ prioridad_de k b) xs) (sym prio)
            (Leidos-All k t.prioridad xs ys l menores),
        subst (λ (n : ℕ). find? (λ b. prioridad_de k b == n) xs ≡ some a) (sym prio) hallado,
      )

-- The queue that the planner by queues takes from: the first of its priority that is not empty.
abbrev pub con_hilos : Cola → Cola → Bool
con_hilos q r = (r.prioridad == q.prioridad) && not (length r.cola_multinivel == 0)

abbrev con_alguno : Cola → Bool
con_alguno r = not (length r.cola_multinivel == 0)

keep-none :
    (f : Cola → Cola → Cola) (colas : List Cola)
    → fold1? f (keep con_alguno colas) ≡ none
    → All (λ r. (length r.cola_multinivel == 0) ≡ true) colas
keep-none f [] h = tt
keep-none f (r ∷ rs) h = ground (arith, keep-none f rs)

All-keep :
    (n : ℕ) (colas : List Cola)
    → All (λ r. n ≤ r.prioridad) (keep con_alguno colas)
    → All (λ r. (length r.cola_multinivel == 0) ≡ false → n ≤ r.prioridad) colas
All-keep n [] h = tt
All-keep n (r ∷ rs) h = elim (Bool-cases (length r.cola_multinivel == 0)) [
  | inl vacia ↦ (λ no_vacia. absurd (cc), All-keep n rs (rw vacia at h))
  | inr llena ↦
      let h' : All (λ r. n ≤ r.prioridad) (r ∷ keep con_alguno rs) = rw llena at h in
      (λ no_vacia. h'.0, All-keep n rs h'.1)
]

cons_of_ne :
    (xs : List ℕ) → (length xs == 0) ≡ false → (a : ℕ) × (resto : List ℕ) × (xs ≡ a ∷ resto)
cons_of_ne [] h = cc
cons_of_ne (x ∷ xs) h = (x, xs, refl)

module _ (c : Listas) (e : Entorno) (k : Kernel) where
  no_esta_vacia-con_alguno : no_esta_vacia c e ≡ con_alguno
  unfolding no_esta_vacia
  no_esta_vacia-con_alguno = fun_ext λ q. rw (c.list_is_empty_lem q.cola_multinivel)

  es_la_elegida-con_hilos : (q : Cola) → es_la_elegida c e q ≡ con_hilos q
  unfolding es_la_elegida no_esta_vacia
  es_la_elegida-con_hilos q = fun_ext λ r. rw (c.list_is_empty_lem r.cola_multinivel)

  elegir_siguiente_colas_vacio :
      fold1? minima_prioridad2 (keep con_alguno k.colas_de_ready) ≡ none
      → elegir_siguiente_colas c e k ≡ salir
  unfolding elegir_siguiente_colas
  elegir_siguiente_colas_vacio h = rw (
    elegir_siguiente_colas,
    no_esta_vacia-con_alguno,
    c.list_filter_lem k.colas_de_ready con_alguno,
    c.list_get_minimum_lem _ minima_prioridad2,
    h,
  )

  elegir_siguiente_colas_paso :
      (q : Cola) (a : ℕ) (resto : List ℕ)
      → fold1? minima_prioridad2 (keep con_alguno k.colas_de_ready) ≡ some q
      → q.cola_multinivel ≡ a ∷ resto
      → elegir_siguiente_colas c e k
        ≡ ok (
          record k {
            colas_de_ready =
                modify_p (con_hilos q) (λ r. record r { cola_multinivel = resto }) k.colas_de_ready;
          },
          some a,
        )
  unfolding elegir_siguiente_colas
  elegir_siguiente_colas_paso q a resto h llena = rw (
    elegir_siguiente_colas,
    no_esta_vacia-con_alguno,
    c.list_filter_lem k.colas_de_ready con_alguno,
    c.list_get_minimum_lem _ minima_prioridad2,
    h,
    c.list_remove_lem q.cola_multinivel 0,
    es_la_elegida-con_hilos q,
    ap (λ (l : List ℕ). get_elem? l 0) llena,
    ap (λ (l : List ℕ). erase_idx l 0) llena,
  )

  -- The planner by queues ends the module if every queue is empty. Otherwise it takes the thread at the
  -- head of a queue that is not empty, of the least priority number among those, and the first such;
  -- that queue loses its head, and nothing else changes.
  pub elegir_siguiente_colas-Elige :
      ((elegir_siguiente_colas c e k ≡ salir)
        × All (λ r. (length r.cola_multinivel == 0) ≡ true) k.colas_de_ready)
      ⊎ ((q : Cola) × (a : ℕ) × (resto : List ℕ) × (find? (con_hilos q) k.colas_de_ready ≡ some q)
          × (q.cola_multinivel ≡ a ∷ resto)
          × All
              (λ r. (length r.cola_multinivel == 0) ≡ false → q.prioridad ≤ r.prioridad)
              k.colas_de_ready
          × (elegir_siguiente_colas c e k
              ≡ ok (
                record k {
                  colas_de_ready =
                      modify_p
                        (con_hilos q)
                        (λ r. record r { cola_multinivel = resto })
                        k.colas_de_ready;
                },
                some a,
              )))
  unfolding minima_prioridad2
  elegir_siguiente_colas-Elige =
      let con = keep con_alguno k.colas_de_ready in
      elim (Option-cases (fold1? minima_prioridad2 con)) [
        | inl ninguna ↦ inl (
          elegir_siguiente_colas_vacio ninguna,
          keep-none minima_prioridad2 k.colas_de_ready ninguna,
        )
        | inr (q, minima) ↦
            let (menores, primera) = fold1?-menor (λ (r : Cola). r.prioridad) con q minima in
            let hallada =
              sym (find?-keep con_alguno (λ r. r.prioridad == q.prioridad) k.colas_de_ready)
              ∙ primera in
            let (a, resto, llena) =
              cons_of_ne q.cola_multinivel
                (ground (arith, find?_sound (con_hilos q) k.colas_de_ready q hallada)) in
            inr (
              q,
              a,
              resto,
              hallada,
              llena,
              All-keep q.prioridad k.colas_de_ready menores,
              elegir_siguiente_colas_paso q a resto minima llena,
            )
      ]
