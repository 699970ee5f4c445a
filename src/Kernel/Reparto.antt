-- ===== src/Kernel/Reparto.antt =====
-- `mutex_lock` and `mutex_unlock` of kernel/src/mainkernel.c on threads that can be followed, from where
-- they have found the mutex.
use tp_sistemas_operativos.Base.{
  ℕ, ◌≡◌, refl, ap, ◌∙◌, Bool, true, arith, Option, none, some, List, [], ◌∷◌, get_elem?, ltb,
  length, All, All-append, All-erase_p, subst, Option-cases, Bool-cases, if◌then◌else◌, inl, inr,
}
use tp_sistemas_operativos.Base.Resultado.{Resultado, ok, deref, ◌>>=◌}
use tp_sistemas_operativos.Commons.{Listas}
use tp_sistemas_operativos.Kernel.Bajas.{finalizar_hilo, asignar_al_primero}
use tp_sistemas_operativos.Kernel.Estado.{
  apunta_a, Kernel, Mutex, Entorno, con_hilo, con_recurso, remover_mutex, pid_del_hilo, es_el_mutex,
}
use tp_sistemas_operativos.Kernel.Exclusion.{
  Pedido, toma, suelta, Cerrojo, cerrojo, pedir, dejar, cerrojo_en, segun_cerrojo, servir,
  servir_todos, tras_rechazo, tiene, tomar-cerrojo, soltar-cerrojo,
}
use tp_sistemas_operativos.Kernel.Logra.{
  Logra, Logra-bind, Logra-luego, Logra-ok, Logra-if, Logra-weaken, Logra-Asegura,
}
use tp_sistemas_operativos.Kernel.Syscalls.{
  soltar_o_finalizar, bloquear_actual, espera_mutex, esta_libre, tomar, soltar,
}
use tp_sistemas_operativos.Kernel.Vivos.{
  Existe, Vive, Sigue, Sano, Sano-mismos, All-weaken, con_hilo-Logra, con_recurso-Logra,
  remover_mutex-vivos, desbloquear-Logra,
}

cerrojo_en-mutex :
    (k : Kernel) (m : ℕ) (l : Cerrojo)
    → cerrojo_en k m ≡ some l
    → (r : Mutex) × (k.recursos m ≡ some r) × (l ≡ cerrojo r)
cerrojo_en-mutex k m l h = elim (Option-cases (k.recursos m)) [
  | inl nada ↦ absurd (ground arith)
  | inr (r, es) ↦ (r, es, ground arith)
]

no_vacia {ℓ} :
    {A : Type ℓ} (xs : List A)
    → ltb 0 (length xs) ≡ true
    → (a : A) × (resto : List A) × (xs ≡ a ∷ resto)
no_vacia [] h = absurd (cc)
no_vacia (a ∷ resto) h = (a, resto, refl)

module _ (c : Listas) (e : Entorno) where
  bloquear_actual-Logra :
      (k : Kernel) (a m : ℕ)
      → Vive e k a
      → Existe k m
      → All (Vive e k) k.hilos_en_block
      → Logra (Sano e k) (bloquear_actual c e k a (espera_mutex c e m))
  unfolding bloquear_actual
  bloquear_actual-Logra k a m (t, p, ht, hp, hs, hq) existe block =
      let k0 : Kernel = record k { hilos_en_block = c.list_add k.hilos_en_block a } in
      let todos : All (Vive e k0) k0.hilos_en_block =
        rw (c.list_add_lem k.hilos_en_block a)
          (All-append (Vive e k) k.hilos_en_block (a ∷ []) block ((t, p, ht, hp, hs, hq), tt)) in
      Logra-weaken
        (con_hilo-Logra c e k0 a _ t ht refl refl (λ h.
          rw (c.list_add_lem t.mutex_en_espera m)
            (All-append (Existe k) t.mutex_en_espera (m ∷ []) h (existe, tt))))
        (λ k2 (s2, b2). Sano-mismos e k0 k2 s2 b2 todos)

  tomar-Logra :
      (k : Kernel) (a m : ℕ)
      → Existe k m
      → Vive e k a
      → All (Vive e k) k.hilos_en_block
      → Logra (λ (s : Kernel × Bool). Sano e k s.0) (tomar c e k a m)
  unfolding tomar
  tomar-Logra k a m (r, hr) vive block = Logra-luego (deref (k.recursos m)) r _ (ap deref hr) (
      Logra-if (esta_libre r)
        (λ libre.
          Logra-bind (con_recurso k m _) (con_recurso-Logra c e k m _ (r, hr))
            λ k1 (s1, b1, resto). Logra-ok _ (Sano-mismos e k k1 s1 b1 block))
        (λ tomado.
          Logra-bind (con_recurso k m _) (con_recurso-Logra c e k m _ (r, hr)) λ k1 (s1, b1, x1).
            Logra-bind (bloquear_actual c e k1 a (espera_mutex c e m))
              (bloquear_actual-Logra k1 a m (s1 a vive) (x1 m (r, hr))
                (Sano-mismos e k k1 s1 b1 block).1)
              λ k2 (s2, b2). Logra-ok _ ((λ b h. s2 b (s1 b h)), b2)))

  asignar_al_primero-Logra :
      (k : Kernel) (m : ℕ) (nombre : List ℕ) (r : Mutex) (a : ℕ) (resto : List ℕ)
      → k.recursos m ≡ some r
      → r.hilos_bloqueados ≡ a ∷ resto
      → Vive e k a
      → All (Vive e k) k.hilos_en_block
      → Logra
          (λ (s : Kernel × ℕ). Sano e k s.0 × Vive e s.0 s.1)
          (asignar_al_primero c e k m nombre)
  unfolding asignar_al_primero
  asignar_al_primero-Logra k m nombre r a resto hr cola vive block =
      Logra-luego (deref (k.recursos m)) r _ (ap deref hr) (
        Logra-bind (con_recurso k m _) (con_recurso-Logra c e k m _ (r, hr)) λ k1 (s1, b1, resto1).
          let vive1 = s1 a vive in
          let (t, p, ht, hp, hs, hq) = vive1 in
          let primero : (c.list_remove r.hilos_bloqueados 0).0 ≡ some a =
            ap (λ (s : Option ℕ × List ℕ). s.0) (c.list_remove_lem r.hilos_bloqueados 0)
            ∙ ap (λ (xs : List ℕ). get_elem? xs 0) cola in
          Logra-luego (deref (c.list_remove r.hilos_bloqueados 0).0) a _ (ap deref primero) (
            Logra-luego (deref (k1.hilos a)) t _ (ap deref ht) (
              Logra-luego (remover_mutex c k1 t.mutex_en_espera nombre) _ _
                (remover_mutex-vivos c e k1 t.mutex_en_espera nombre hs)
                (Logra-bind (con_hilo k1 a _)
                  (con_hilo-Logra c e k1 a _ t ht refl refl
                    (λ h. All-erase_p (Existe k1) (es_el_mutex k1 nombre) t.mutex_en_espera h))
                  λ k2 (s2, b2). Logra-ok _ (
                    (
                      (λ b h. s2 b (s1 b h)),
                      (Sano-mismos e k1 k2 s2 b2 (Sano-mismos e k k1 s1 b1 block).1).1,
                    ),
                    s2 a vive1,
                  )))))

  soltar-Logra :
      (k : Kernel) (m : ℕ) (nombre : List ℕ) (l : Cerrojo)
      → cerrojo_en k m ≡ some l
      → All (Vive e k) l.1
      → All (Vive e k) k.hilos_en_block
      → Logra (Sano e k) (soltar c e k m nombre)
  unfolding soltar pid_del_hilo
  soltar-Logra k m nombre l h cola block =
      let (r, hr, es) = cerrojo_en-mutex k m l h in
      Logra-luego (deref (k.recursos m)) r _ (ap deref hr) (
        Logra-if (ltb 0 (c.list_size r.hilos_bloqueados))
          (λ hay.
            let (a, resto, partes) =
              no_vacia r.hilos_bloqueados (rw (← c.list_size_lem r.hilos_bloqueados) hay) in
            let vive : Vive e k a =
              (subst (All (Vive e k)) (ap (λ (l : Cerrojo). l.1) es ∙ partes) cola).0 in
            Logra-bind (asignar_al_primero c e k m nombre)
              (asignar_al_primero-Logra k m nombre r a resto hr partes vive block)
              λ (k1, nuevo) ((s1, b1), (t, p, ht, hp, hs, hq)).
                Logra-luego (deref (k1.hilos nuevo)) t _ (ap deref ht) (
                  Logra-luego (pid_del_hilo k1 t) p.pid _ (rw hp) (
                    Logra-weaken (desbloquear-Logra c e k1 t.tid p.pid b1)
                      λ k2 (s2, b2). ((λ b h. s2 b (s1 b h)), b2))))
          (λ nadie.
            Logra-weaken (con_recurso-Logra c e k m _ (r, hr))
              λ k1 (s1, b1, x1). Sano-mismos e k k1 s1 b1 block))

  -- Who asks can be followed.
  abbrev pub Pide : Kernel → Pedido → Type 0
  Pide k (toma a) = Vive e k a
  Pide k (suelta a nombre) = Unit

  Pide-Sigue : (k k' : Kernel) → Sigue e k k' → (p : Pedido) → Pide k p → Pide k' p
  Pide-Sigue k k' s (toma a) h = s a h
  Pide-Sigue k k' s (suelta a nombre) h = tt

  pedir-vivos :
      (k : Kernel) (a : ℕ) (l : Cerrojo)
      → Vive e k a
      → All (Vive e k) l.1
      → All (Vive e k) (pedir a l).0.1
  pedir-vivos k a (none, cola) vive h = h
  pedir-vivos k a (some d, cola) vive h = All-append (Vive e k) cola (a ∷ []) h (vive, tt)

  dejar-vivos : (k : Kernel) (l : Cerrojo) → All (Vive e k) l.1 → All (Vive e k) (dejar l).1
  dejar-vivos k (d, []) h = h
  dejar-vivos k (d, a ∷ cola) h = h.1

  apunta_a-tiene : (r : Mutex) (a : ℕ) → apunta_a r.tomado_por a ≡ tiene (cerrojo r) a
  unfolding apunta_a
  apunta_a-tiene r a = elim (Option-cases r.tomado_por) [
    | inl nadie ↦ rw nadie
    | inr (d, es) ↦ rw es
  ]

  soltar_o_finalizar-suyo :
      (k : Kernel) (m a : ℕ) (nombre : List ℕ) (l : Cerrojo)
      → cerrojo_en k m ≡ some l
      → soltar_o_finalizar c e k a nombre (some m)
        ≡ (if tiene l a then soltar c e k m nombre else finalizar_hilo c e k a)
  unfolding soltar_o_finalizar
  soltar_o_finalizar-suyo k m a nombre l h =
      let (r, hr, es) = cerrojo_en-mutex k m l h in
      rw (soltar_o_finalizar, hr, apunta_a-tiene r a, es)

  -- When the threads that ask, that wait and that are blocked can be followed, then what threads ask of a
  -- mutex, in any order, ends with a value up to the first release by a thread that does not have it;
  -- the mutex then has the owner and the queue of the lock that was asked the same, and the blocked threads
  -- can still be followed. That release comes down to the end of the thread that asked for it, after which
  -- what is left is asked.
  pub servir_todos-segun_cerrojo :
      (ps : List Pedido) (k : Kernel) (m : ℕ) (l : Cerrojo)
      → cerrojo_en k m ≡ some l
      → All (Vive e k) l.1
      → All (Vive e k) k.hilos_en_block
      → All (Pide k) ps
      → (k' : Kernel) × (servir_todos c e k m ps ≡ tras_rechazo c e k' m (segun_cerrojo l ps).1)
        × (cerrojo_en k' m ≡ some (segun_cerrojo l ps).0)
        × All (Vive e k') k'.hilos_en_block
  unfolding servir_todos servir
  servir_todos-segun_cerrojo [] k m l h cola block piden = (k, refl, h, block)
  servir_todos-segun_cerrojo (toma a ∷ ps) k m l h cola block (vive, piden) =
      let (r, hr, es) = cerrojo_en-mutex k m l h in
      let paso =
        Logra-Asegura (tomar-Logra k a m (r, hr) vive block) (tomar-cerrojo c e k a m l h) in
      let k1 = paso.valor.0 in
      let ((s1, b1), (queda, avisa)) = paso.cumple in
      let (k2, fin, final, vivos) =
        servir_todos-segun_cerrojo ps k1 m (pedir a l).0 queda
          (pedir-vivos k1 a l (s1 a vive) (All-weaken l.1 s1 cola)) b1
          (All-weaken ps (Pide-Sigue k k1 s1) piden) in
      (
        k2,
        ap
              (λ (x : Resultado (Kernel × Bool)).
                x >>= (λ s. ok s.0) >>= (λ k'. servir_todos c e k' m ps))
              paso.termina
            ∙ fin,
        final,
        vivos,
      )
  servir_todos-segun_cerrojo (suelta a nombre ∷ ps) k m l h cola block (nada, piden) =
      let reparte = soltar_o_finalizar-suyo k m a nombre l h in
      elim (Bool-cases (tiene l a)) [
        | inl suyo ↦
            (let paso =
                Logra-Asegura (soltar-Logra k m nombre l h cola block)
                  (soltar-cerrojo c e k m nombre l h) in
              let k1 = paso.valor in
              let ((s1, b1), queda) = paso.cumple in
              let (k2, fin, final, vivos) =
                servir_todos-segun_cerrojo ps k1 m (dejar l) queda
                  (dejar-vivos k1 l (All-weaken l.1 s1 cola)) b1
                  (All-weaken ps (Pide-Sigue k k1 s1) piden) in
              rw (reparte, suyo, paso.termina) (k2, fin, final, vivos))
        | inr ajeno ↦ rw (reparte, ajeno) (k, refl, h, block)
      ]
