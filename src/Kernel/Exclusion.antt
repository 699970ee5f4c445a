-- ===== src/Kernel/Exclusion.antt =====
-- The mutexes of kernel/src/mainkernel.c against a lock with a queue: `mutex_lock` and `mutex_unlock`
-- from where they have found the mutex.
use tp_sistemas_operativos.Base.{
  ◌==◌, if◌then◌else◌, get_elem?, erase_idx, ==_self, ℕ, ◌≡◌, refl, sym, ap, ◌∙◌, Bool, true, false,
  arith, Option, none, some, List, [], ◌∷◌, ◌++◌, length, ltb,
}
use tp_sistemas_operativos.Base.Resultado.{Resultado, ok, deref, ◌>>=◌, deref-eq-ok}
use tp_sistemas_operativos.Commons.{Listas}
use tp_sistemas_operativos.Kernel.Asegura.{
  Asegura, Asegura-bind, Asegura-luego, Asegura-ok, Asegura-if, Asegura-weaken,
}
use tp_sistemas_operativos.Kernel.Bajas.{finalizar_hilo, asignar_al_primero, desbloquear}
use tp_sistemas_operativos.Kernel.Intactos.{Intactos, con_hilo-Intactos, desbloquear-Intactos}
use tp_sistemas_operativos.Kernel.Estado.{
  Kernel, Pcb, Tcb, Mutex, Entorno, con_hilo, con_recurso, remover_mutex, pid_del_hilo,
}
use tp_sistemas_operativos.Kernel.Syscalls.{
  soltar_o_finalizar, bloquear_actual, espera_mutex, esta_libre, tomar, soltar,
}

-- The abstract lock: who has it, and who waits, the first to be served first.
abbrev pub Cerrojo : Type 0
Cerrojo = Option ℕ × List ℕ

-- A thread asks for the lock, and is told whether it has to wait.
abbrev pub pedir : ℕ → Cerrojo → Cerrojo × Bool
pedir a (none, cola) = ((some a, cola), false)
pedir a (some duenio, cola) = ((some duenio, cola ++ (a ∷ [])), true)

-- The lock goes to the first that waits.
abbrev pub dejar : Cerrojo → Cerrojo
dejar (duenio, []) = (none, [])
dejar (duenio, a ∷ cola) = (some a, cola)

abbrev pub cerrojo : Mutex → Cerrojo
cerrojo r = (r.tomado_por, r.hilos_bloqueados)

-- The lock behind the address of a mutex.
abbrev pub cerrojo_en : Kernel → ℕ → Option Cerrojo
cerrojo_en k m = elim (k.recursos m) [ none ↦ none | some r ↦ some (cerrojo r) ]

abbrev pub tiene : Cerrojo → ℕ → Bool
tiene (none, cola) a = false
tiene (some duenio, cola) a = duenio == a

-- What is asked of one mutex, and by which thread.
pub data Pedido : Type 0 where
  toma : ℕ → Pedido
  suelta : ℕ → List ℕ → Pedido

-- The lock after what was asked of it, up to the first release by a thread that does not have it: that
-- thread, and what is asked afterwards.
abbrev pub segun_cerrojo : Cerrojo → List Pedido → Cerrojo × Option (ℕ × List Pedido)
segun_cerrojo l [] = (l, none)
segun_cerrojo l (toma a ∷ ps) = segun_cerrojo (pedir a l).0 ps
segun_cerrojo l (suelta a nombre ∷ ps) =
    let rest = segun_cerrojo (dejar l) ps in if tiene l a then rest else (l, some (a, ps))

abbrev MismosRecursos : Kernel → Kernel → Type 0
MismosRecursos k k' = k'.recursos ≡ k.recursos

Intactos-MismosRecursos : (k k' : Kernel) → Intactos k k' → MismosRecursos k k'
Intactos-MismosRecursos k k' h = ap (λ (s : (ℕ → Option Pcb) × (ℕ → Option Mutex)). s.1) h

con_hilo-recursos :
    (k : Kernel) (a : ℕ) (f : Tcb → Tcb) → Asegura (MismosRecursos k) (con_hilo k a f)
con_hilo-recursos k a f = Asegura-weaken (con_hilo-Intactos k a f) (Intactos-MismosRecursos k)

MismosRecursos-cerrojo_en :
    (k k' : Kernel) (m : ℕ) → MismosRecursos k k' → cerrojo_en k' m ≡ cerrojo_en k m
MismosRecursos-cerrojo_en k k' m h = ground (arith, ap (λ (f : ℕ → Option Mutex). f m) h)

con_recurso-cerrojo_en :
    (k : Kernel) (m : ℕ) (f : Mutex → Mutex) (r : Mutex)
    → k.recursos m ≡ some r
    → Asegura (λ k'. cerrojo_en k' m ≡ some (cerrojo (f r))) (con_recurso k m f)
unfolding con_recurso
con_recurso-cerrojo_en k m f r h = Asegura-luego (deref (k.recursos m)) λ r' leido.
    let es : r' ≡ r = ground (arith, deref-eq-ok (k.recursos m) leido, h) in
    Asegura-ok _ (rw (cerrojo_en, ==_self m, es))

cerrojo_en-es :
    (k : Kernel) (m : ℕ) (l : Cerrojo) (r : Mutex)
    → cerrojo_en k m ≡ some l
    → k.recursos m ≡ some r
    → l ≡ cerrojo r
cerrojo_en-es k m l r h esta = ground arith

dejar-hay : (l : Cerrojo) → ltb 0 (length l.1) ≡ true → dejar l ≡ (get_elem? l.1 0, erase_idx l.1 0)
dejar-hay (d, []) h = absurd (cc)
dejar-hay (d, x ∷ xs) h = refl

dejar-nadie : (l : Cerrojo) → ltb 0 (length l.1) ≡ false → dejar l ≡ (none, l.1)
dejar-nadie (d, []) h = refl
dejar-nadie (d, x ∷ xs) h = absurd (ground arith)

pedir-libre :
    (a : ℕ) (r : Mutex)
    → esta_libre r ≡ true
    → pedir a (cerrojo r) ≡ ((some a, r.hilos_bloqueados), false)
unfolding esta_libre
pedir-libre a r h = ground arith

pedir-tomado :
    (a : ℕ) (r : Mutex)
    → esta_libre r ≡ false
    → pedir a (cerrojo r) ≡ ((r.tomado_por, r.hilos_bloqueados ++ (a ∷ [])), true)
unfolding esta_libre
pedir-tomado a r h = ground arith

module _ (c : Listas) (e : Entorno) where
  unfoldable pub servir : Kernel → ℕ → Pedido → Resultado Kernel
  servir k m (toma a) = do (k', espera) ← tomar c e k a m; ok k'
  servir k m (suelta a nombre) = soltar_o_finalizar c e k a nombre (some m)

  unfoldable pub servir_todos : Kernel → ℕ → List Pedido → Resultado Kernel
  servir_todos k m [] = ok k
  servir_todos k m (p ∷ ps) = do k' ← servir k m p; servir_todos k' m ps

  -- What is left to do after the lock has refused a release: the thread ends, and the rest is served.
  abbrev pub tras_rechazo : Kernel → ℕ → Option (ℕ × List Pedido) → Resultado Kernel
  tras_rechazo k m none = ok k
  tras_rechazo k m (some (a, ps)) = do k' ← finalizar_hilo c e k a; servir_todos k' m ps

  desbloquear-recursos :
      (k : Kernel) (tid pid : ℕ) → Asegura (MismosRecursos k) (desbloquear c e k tid pid)
  desbloquear-recursos k tid pid =
      Asegura-weaken (desbloquear-Intactos c e k tid pid) (Intactos-MismosRecursos k)

  bloquear_actual-recursos :
      (k : Kernel) (a : ℕ) (f : Tcb → Tcb) → Asegura (MismosRecursos k) (bloquear_actual c e k a f)
  unfolding bloquear_actual
  bloquear_actual-recursos k a f =
      con_hilo-recursos (record k { hilos_en_block = c.list_add k.hilos_en_block a }) a _

  asignar_al_primero-cerrojo :
      (k : Kernel) (m : ℕ) (nombre : List ℕ) (l : Cerrojo)
      → cerrojo_en k m ≡ some l
      → Asegura
          (λ (s : Kernel × ℕ). cerrojo_en s.0 m ≡ some (get_elem? l.1 0, erase_idx l.1 0))
          (asignar_al_primero c e k m nombre)
  unfolding asignar_al_primero
  asignar_al_primero-cerrojo k m nombre l h = Asegura-luego (deref (k.recursos m)) λ r leido.
      let esta = deref-eq-ok (k.recursos m) leido in
      let es = cerrojo_en-es k m l r h esta in
      Asegura-bind (con_recurso k m _) (con_recurso-cerrojo_en k m _ r esta) λ k1 h1.
        Asegura-luego (deref (c.list_remove r.hilos_bloqueados 0).0) λ nuevo g.
          Asegura-luego (deref (k1.hilos nuevo)) λ t g.
            Asegura-luego (remover_mutex c k1 t.mutex_en_espera nombre) λ (s, espera) g.
              Asegura-bind (con_hilo k1 nuevo _) (con_hilo-recursos k1 nuevo _) λ k2 h2.
                Asegura-ok _ (
                  MismosRecursos-cerrojo_en k1 k2 m h2
                  ∙ h1
                  ∙ (rw (es, c.list_remove_lem r.hilos_bloqueados 0)))

  pub tomar-cerrojo :
      (k : Kernel) (a m : ℕ) (l : Cerrojo)
      → cerrojo_en k m ≡ some l
      → Asegura
          (λ (s : Kernel × Bool). (cerrojo_en s.0 m ≡ some (pedir a l).0) × (s.1 ≡ (pedir a l).1))
          (tomar c e k a m)
  unfolding tomar
  tomar-cerrojo k a m l h = Asegura-luego (deref (k.recursos m)) λ r leido.
      let esta = deref-eq-ok (k.recursos m) leido in
      let es = cerrojo_en-es k m l r h esta in
      Asegura-if (esta_libre r)
        (λ libre.
          Asegura-bind (con_recurso k m _) (con_recurso-cerrojo_en k m _ r esta)
            λ k1 h1. Asegura-ok _ (rw (es, pedir-libre a r libre) (h1, refl)))
        (λ tomado. Asegura-bind (con_recurso k m _) (con_recurso-cerrojo_en k m _ r esta) λ k1 h1.
          Asegura-bind (bloquear_actual c e k1 a (espera_mutex c e m))
            (bloquear_actual-recursos k1 a (espera_mutex c e m))
            λ k2 h2. Asegura-ok _ (
              rw (es, pedir-tomado a r tomado)
                (
                  MismosRecursos-cerrojo_en k1 k2 m h2
                      ∙ h1
                      ∙ (rw (c.list_add_lem r.hilos_bloqueados a)),
                  refl,
                )))

  pub soltar-cerrojo :
      (k : Kernel) (m : ℕ) (nombre : List ℕ) (l : Cerrojo)
      → cerrojo_en k m ≡ some l
      → Asegura (λ k'. cerrojo_en k' m ≡ some (dejar l)) (soltar c e k m nombre)
  unfolding soltar
  soltar-cerrojo k m nombre l h = Asegura-luego (deref (k.recursos m)) λ r leido.
      let esta = deref-eq-ok (k.recursos m) leido in
      let es = cerrojo_en-es k m l r h esta in
      let largo = c.list_size_lem r.hilos_bloqueados in
      Asegura-if (ltb 0 (c.list_size r.hilos_bloqueados))
        (λ hay.
          Asegura-bind (asignar_al_primero c e k m nombre)
            (asignar_al_primero-cerrojo k m nombre l h)
            λ (k1, nuevo) h1. Asegura-luego (deref (k1.hilos nuevo)) λ t g.
              Asegura-luego (pid_del_hilo k1 t) λ pid g.
                Asegura-weaken (desbloquear-recursos k1 t.tid pid) λ k2 h2.
                  MismosRecursos-cerrojo_en k1 k2 m h2
                  ∙ h1
                  ∙ ap some (sym (dejar-hay l (rw (es, ← largo) hay))))
        (λ nadie.
          Asegura-weaken (con_recurso-cerrojo_en k m _ r esta)
            λ k1 h1. h1 ∙ (rw es (ap some (sym (dejar-nadie (cerrojo r) (rw (← largo) nadie))))))
