-- ===== src/Kernel/Vivos.antt =====
-- Threads that can be followed, and the calls of kernel/src/pcbYtcb.c and kernel/src/mainkernel.c that
-- wake one up.
use tp_sistemas_operativos.Base.{
  ℕ, ◌≡◌, refl, sym, ap, ◌∙◌, Bool, true, false, arith, Option, none, some, List, [], ◌∷◌, find?,
  modify_p, erase_p, ==_self, subst, inl, inr, Bool-cases, Option-cases, find?-modify_p, All,
  All-find?, All-erase_p, All-append, ◌==◌, if◌then◌else◌,
}
use tp_sistemas_operativos.Base.Resultado.{ok, deref}
use tp_sistemas_operativos.Commons.{Listas}
use tp_sistemas_operativos.Kernel.Logra.{Logra, Logra-bind, Logra-luego, Logra-ok, Logra-if}
use tp_sistemas_operativos.Kernel.Bajas.{desbloquear}
use tp_sistemas_operativos.Kernel.Colas.{
  usamos_multicolas, encolar, puede_correr, obtener_cola_multinivel, tiene_prioridad,
  transicion_a_ready, pasar_a_ready, listo,
}
use tp_sistemas_operativos.Kernel.Estado.{
  Kernel, Tcb, Pcb, Mutex, Cola, Entorno, actualizar, con_hilo, con_recurso, remover_hilo,
  remover_mutex, pid_del_hilo, es_el_hilo, es_el_mutex, leido, leido_mutex,
}

abbrev pub Existe : Kernel → ℕ → Type 0
Existe k m = (r : Mutex) × (k.recursos m ≡ some r)

-- With queues of many levels, a queue of the priority.
abbrev pub TieneCola : Entorno → Kernel → ℕ → Type 0
TieneCola e k prioridad =
    usamos_multicolas e ≡ true
    → (q : Cola) × (find? (tiene_prioridad prioridad) k.colas_de_ready ≡ some q)

-- A thread, its process, the mutexes that it waits for, and its queue.
abbrev pub Vive : Entorno → Kernel → ℕ → Type 0
Vive e k a =
    (t : Tcb) × (p : Pcb) × (k.hilos a ≡ some t)
    × (k.procesos t.proceso_padre ≡ some p)
    × All (Existe k) t.mutex_en_espera
    × TieneCola e k t.prioridad

-- Threads that can be followed stay so.
abbrev pub Sigue : Entorno → Kernel → Kernel → Type 0
Sigue e k k' = (b : ℕ) → Vive e k b → Vive e k' b

pub All-weaken {ℓ κ μ} :
    {A : Type ℓ} {P : A → Type κ} {Q : A → Type μ} (xs : List A)
    → ((x : A) → P x → Q x)
    → All P xs
    → All Q xs
All-weaken [] f h = tt
All-weaken (x ∷ xs) f h = (f x h.0, All-weaken xs f h.1)

Vive-con_hilo :
    (e : Entorno) (k : Kernel) (a : ℕ) (f : Tcb → Tcb) (t : Tcb)
    → k.hilos a ≡ some t
    → (f t).proceso_padre ≡ t.proceso_padre
    → (f t).prioridad ≡ t.prioridad
    → (All (Existe k) t.mutex_en_espera → All (Existe k) (f t).mutex_en_espera)
    → Sigue e k (record k { hilos = actualizar k.hilos a (some (f t)) })
Vive-con_hilo e k a f t esta padre prioridad esperas b (u, p, hu, hp, hs, hq) =
    elim (Bool-cases (a == b)) [
      | inl es ↦
          let igual : u ≡ t = ground (arith, ==_self a) in
          (
            f t,
            p,
            (rw es),
            (rw (padre, ← igual) hp),
            esperas (subst (λ v. All (Existe k) v.mutex_en_espera) igual hs),
            (rw (prioridad, ← igual) hq),
          )
      | inr otro ↦ (u, p, (rw otro hu), hp, hs, hq)
    ]

Existe-con_recurso :
    (k : Kernel) (m : ℕ) (r : Mutex) (n : ℕ)
    → Existe k n
    → Existe (record k { recursos = actualizar k.recursos m (some r) }) n
Existe-con_recurso k m r n (s, h) = elim (Bool-cases (m == n)) [
  | inl es ↦ (r, (rw es))
  | inr otro ↦ (s, (rw otro h))
]

Vive-con_recurso :
    (e : Entorno) (k : Kernel) (m : ℕ) (r : Mutex)
    → Sigue e k (record k { recursos = actualizar k.recursos m (some r) })
Vive-con_recurso e k m r b (t, p, ht, hp, hs, hq) =
    (t, p, ht, hp, All-weaken t.mutex_en_espera (Existe-con_recurso k m r) hs, hq)

TieneCola-modify_p :
    (e : Entorno) (k : Kernel) (p : Cola → Bool) (g : Cola → Cola)
    → ((q : Cola) → (g q).prioridad ≡ q.prioridad)
    → Sigue e k (record k { colas_de_ready = modify_p p g k.colas_de_ready })
TieneCola-modify_p e k p g igual b (t, r, ht, hr, hs, hq) = (
  t,
  r,
  ht,
  hr,
  hs,
  λ si.
      let (q, h) = hq si in
      elim (find?-modify_p p (tiene_prioridad t.prioridad) g (λ q. rw (igual q)) k.colas_de_ready q
        h) [ inl x ↦ (q, x) | inr x ↦ (g q, x.1) ],
)

-- What a call on a thread does: it ends, and what could be followed still can.
abbrev pub Sano : Entorno → Kernel → Kernel → Type 0
Sano e k k' = Sigue e k k' × All (Vive e k') k'.hilos_en_block

leido_mutex-find? :
    (k : Kernel) (p : ℕ → Bool) (xs : List ℕ)
    → All (Existe k) xs
    → leido_mutex k (find? p xs) ≡ ok (find? p xs)
unfolding leido_mutex
leido_mutex-find? k p xs h = elim (Option-cases (find? p xs)) [
  | inl nada ↦ rw nada
  | inr (m, es) ↦ (let (r, hr) = All-find? (Existe k) p xs h es in rw (es, hr))
]

leido-find? :
    (e : Entorno) (k : Kernel) (p : ℕ → Bool) (xs : List ℕ)
    → All (Vive e k) xs
    → leido k (find? p xs) ≡ ok (find? p xs)
unfolding leido pid_del_hilo
leido-find? e k p xs h = elim (Option-cases (find? p xs)) [
  | inl nada ↦ rw nada
  | inr (a, es) ↦
      (let (t, q, ht, hq, espera, cola) = All-find? (Vive e k) p xs h es in rw (es, ht, hq))
]

pub Sano-mismos :
    (e : Entorno) (k k' : Kernel)
    → Sigue e k k'
    → k'.hilos_en_block ≡ k.hilos_en_block
    → All (Vive e k) k.hilos_en_block
    → Sano e k k'
Sano-mismos e k k' s igual h =
    (s, subst (All (Vive e k')) (sym igual) (All-weaken k.hilos_en_block s h))

module _ (c : Listas) (e : Entorno) where
  pub remover_mutex-vivos :
      (k : Kernel) (xs : List ℕ) (nombre : List ℕ)
      → All (Existe k) xs
      → remover_mutex c k xs nombre
        ≡ ok (find? (es_el_mutex k nombre) xs, erase_p (es_el_mutex k nombre) xs)
  unfolding remover_mutex
  remover_mutex-vivos k xs nombre h = rw (
    c.list_remove_by_condition_lem xs (es_el_mutex k nombre),
    leido_mutex-find? k (es_el_mutex k nombre) xs h,
  )

  pub remover_hilo-vivos :
      (k : Kernel) (xs : List ℕ) (tid pid : ℕ)
      → All (Vive e k) xs
      → remover_hilo c k xs tid pid
        ≡ ok (find? (es_el_hilo k tid pid) xs, erase_p (es_el_hilo k tid pid) xs)
  unfolding remover_hilo
  remover_hilo-vivos k xs tid pid h = rw (
    c.list_remove_by_condition_lem xs (es_el_hilo k tid pid),
    leido-find? e k (es_el_hilo k tid pid) xs h,
  )

  obtener_cola_multinivel-hay :
      (colas : List Cola) (prioridad : ℕ) (q : Cola)
      → find? (tiene_prioridad prioridad) colas ≡ some q
      → obtener_cola_multinivel c e colas prioridad ≡ ok q
  unfolding obtener_cola_multinivel
  obtener_cola_multinivel-hay colas prioridad q h =
      rw (obtener_cola_multinivel, c.list_find_lem colas (tiene_prioridad prioridad), h)

  pub encolar-Logra :
      (k : Kernel) (a prioridad : ℕ)
      → TieneCola e k prioridad
      → Logra
          (λ k'. Sigue e k k' × (k'.hilos ≡ k.hilos) × (k'.hilos_en_block ≡ k.hilos_en_block))
          (encolar c e k a prioridad)
  unfolding encolar
  encolar-Logra k a prioridad cola =
      Logra-if (usamos_multicolas e)
        (λ si.
          let (q, hq) = cola si in
          Logra-luego (obtener_cola_multinivel c e k.colas_de_ready prioridad) q _
            (obtener_cola_multinivel-hay k.colas_de_ready prioridad q hq)
            (Logra-ok _
              (TieneCola-modify_p e k (tiene_prioridad prioridad) _ (λ q. refl), refl, refl)))
        (λ otro. Logra-ok _ ((λ b h. h), refl, refl))

  pub con_hilo-Logra :
      (k : Kernel) (a : ℕ) (f : Tcb → Tcb) (t : Tcb)
      → k.hilos a ≡ some t
      → (f t).proceso_padre ≡ t.proceso_padre
      → (f t).prioridad ≡ t.prioridad
      → (All (Existe k) t.mutex_en_espera → All (Existe k) (f t).mutex_en_espera)
      → Logra (λ k'. Sigue e k k' × (k'.hilos_en_block ≡ k.hilos_en_block)) (con_hilo k a f)
  unfolding con_hilo
  con_hilo-Logra k a f t esta padre prioridad esperas =
      Logra-luego (deref (k.hilos a)) t _ (ap deref esta)
        (Logra-ok _ (Vive-con_hilo e k a f t esta padre prioridad esperas, refl))

  pub con_recurso-Logra :
      (k : Kernel) (m : ℕ) (f : Mutex → Mutex)
      → Existe k m
      → Logra
          (λ k'.
            Sigue e k k'
            × (k'.hilos_en_block ≡ k.hilos_en_block)
            × ((n : ℕ) → Existe k n → Existe k' n))
          (con_recurso k m f)
  unfolding con_recurso
  con_recurso-Logra k m f (r, hr) =
      Logra-luego (deref (k.recursos m)) r _ (ap deref hr)
        (Logra-ok _ (Vive-con_recurso e k m (f r), refl, Existe-con_recurso k m (f r)))

  -- A thread that can be followed passes to READY, or is told that it still waits.
  pub transicion_a_ready-Logra :
      (k : Kernel) (a : ℕ)
      → Vive e k a
      → Logra
          (λ (s : Kernel × Bool). Sigue e k s.0 × (s.0.hilos_en_block ≡ k.hilos_en_block))
          (transicion_a_ready c e k a)
  unfolding transicion_a_ready
  transicion_a_ready-Logra k a (t, p, ht, hp, hs, hq) =
      Logra-luego (deref (k.hilos a)) t _ (ap deref ht) (
        Logra-if (puede_correr c e t)
          (λ si.
            Logra-bind (encolar c e k a t.prioridad) (encolar-Logra k a t.prioridad hq)
              λ k1 (s1, h1, b1).
                Logra-bind (con_hilo k1 a listo)
                  (con_hilo-Logra k1 a listo t (ap (λ (f : ℕ → Option Tcb). f a) h1 ∙ ht) refl refl
                    (λ h. h))
                  λ k2 (s2, b2). Logra-ok _ ((λ b h. s2 b (s1 b h)), b2 ∙ b1))
          (λ falta. Logra-ok _ ((λ b h. h), refl)))

  pub pasar_a_ready-Logra :
      (k : Kernel) (a : ℕ)
      → Vive e k a
      → All (Vive e k) k.hilos_en_block
      → Logra (Sano e k) (pasar_a_ready c e k a)
  unfolding pasar_a_ready
  pasar_a_ready-Logra k a vive block =
      Logra-bind (transicion_a_ready c e k a) (transicion_a_ready-Logra k a vive)
        λ (k1, paso) (s1, b1). fin k1 paso s1 (Sano-mismos e k k1 s1 b1 block).1
    where
      fin :
          (k1 : Kernel) (paso : Bool)
          → Sigue e k k1
          → All (Vive e k1) k1.hilos_en_block
          → Logra (Sano e k) (
              ok (
                if paso then k1 else record k1 { hilos_en_block = c.list_add k1.hilos_en_block a }))
      fin k1 true s1 vivos = Logra-ok _ (s1, vivos)
      fin k1 false s1 vivos = Logra-ok _ (
        s1,
        rw (c.list_add_lem k1.hilos_en_block a)
            (All-append (Vive e k1) k1.hilos_en_block (a ∷ []) vivos (s1 a vive, tt)),
      )

  pub desbloquear-Logra :
      (k : Kernel) (tid pid : ℕ)
      → All (Vive e k) k.hilos_en_block
      → Logra (Sano e k) (desbloquear c e k tid pid)
  unfolding desbloquear
  desbloquear-Logra k tid pid h =
      Logra-luego (remover_hilo c k k.hilos_en_block tid pid) _ _
        (remover_hilo-vivos k k.hilos_en_block tid pid h)
        (fin (find? (es_el_hilo k tid pid) k.hilos_en_block) refl)
    where
      resto : All (Vive e k) (erase_p (es_el_hilo k tid pid) k.hilos_en_block)
      resto = All-erase_p (Vive e k) (es_el_hilo k tid pid) k.hilos_en_block h

      sin : Kernel
      sin = record k { hilos_en_block = erase_p (es_el_hilo k tid pid) k.hilos_en_block }

      fin :
          (o : Option ℕ)
          → find? (es_el_hilo k tid pid) k.hilos_en_block ≡ o
          → Logra (Sano e k) (elim o [ none ↦ ok sin | some b ↦ pasar_a_ready c e sin b ])
      fin none es = Logra-ok _ ((λ b h. h), resto)
      fin (some b) es =
          pasar_a_ready-Logra sin b
            (All-find? (Vive e k) (es_el_hilo k tid pid) k.hilos_en_block h es) resto
