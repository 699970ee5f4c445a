-- ===== src/Memoria/Contexto.antt =====
-- The contexts of the threads in memory: what `recibir_contexto_y_actualizar` stores and what the
-- case OBTENER_CONTEXTO_DE_EJECUCION answers.
use tp_sistemas_operativos.Base.{
  ℕ, ◌≡◌, ◌≢◌, ◌∙◌, refl, sym, ap, some, List, arith, find?, modify_p, find?-modify_p_self,
  find?-modify_p_ne,
}
use tp_sistemas_operativos.Base.Resultado.{Resultado, ok, ◌>>=◌, deref, >>=-eq-ok, deref-eq-ok}
use tp_sistemas_operativos.Commons.{Listas}
use tp_sistemas_operativos.Memoria.Hilos.{Tid}
use tp_sistemas_operativos.Memoria.Procesos.{
  Proceso, Memoria, tiene_el_mismo_pid, tiene_el_mismo_tid, obtener_proceso, obtener_tid,
}
use tp_sistemas_operativos.Memoria.Cpu.{
  Contexto, contexto_de, escribir_tid, actualizar_proceso, actualizar_contexto, obtener_contexto,
}

module _ (c : Listas) where
  -- The stored context of a thread: the first process with the id, and its first thread with the id.
  unfoldable pub contexto_en : ℕ → ℕ → List Proceso → Resultado Contexto
  contexto_en pid tid procesos = do
    p ← deref (find? (tiene_el_mismo_pid pid) procesos)
    t ← deref (find? (tiene_el_mismo_tid tid) p.tids)
    ok (contexto_de p t)

  obtener_contexto-eq :
      (m : Memoria) (pid tid : ℕ)
      → obtener_contexto c m pid tid ≡ contexto_en pid tid m.lista_de_procesos
  unfolding obtener_contexto contexto_en obtener_proceso obtener_tid
  obtener_contexto-eq m pid tid = simp (c.list_find_lem)

  -- The two searches of a write that ends well.
  actualizar_contexto-ok :
      (m m' : Memoria) (pid tid : ℕ) (k : Contexto)
      → actualizar_contexto c m pid tid k ≡ ok m'
      → (p : Proceso) × (t : Tid) × (find? (tiene_el_mismo_pid pid) m.lista_de_procesos ≡ some p)
        × (find? (tiene_el_mismo_tid tid) p.tids ≡ some t)
        × (m'.lista_de_procesos
            ≡ modify_p (tiene_el_mismo_pid pid) (actualizar_proceso c tid k) m.lista_de_procesos)
  unfolding actualizar_contexto obtener_proceso obtener_tid
  actualizar_contexto-ok m m' pid tid k h =
      let (p, ep, h1) = >>=-eq-ok (deref (obtener_proceso c pid m.lista_de_procesos)) _ h in
      let (t, et, h2) = >>=-eq-ok (deref (obtener_tid c p.tids tid)) _ h1 in
      (
        p,
        t,
        sym (c.list_find_lem _ _) ∙ deref-eq-ok _ ep,
        sym (c.list_find_lem _ _) ∙ deref-eq-ok _ et,
        cc,
      )

  -- What a thread reads, from the two searches.
  contexto_en-eq :
      (pid tid : ℕ) (xs : List Proceso) (p : Proceso) (t : Tid)
      → find? (tiene_el_mismo_pid pid) xs ≡ some p
      → find? (tiene_el_mismo_tid tid) p.tids ≡ some t
      → contexto_en pid tid xs ≡ ok (contexto_de p t)
  unfolding contexto_en
  contexto_en-eq pid tid xs p t ep et = rw (ep, et)

  -- After the memory stores the context that the processor sent for a thread, without a fault, the
  -- thread's context is read back exactly as it was sent: the nine registers, the base and the
  -- limit.
  pub actualizar_contexto-obtener_contexto :
      (m m' : Memoria) (pid tid : ℕ) (k : Contexto)
      → actualizar_contexto c m pid tid k ≡ ok m'
      → obtener_contexto c m' pid tid ≡ ok k
  actualizar_contexto-obtener_contexto m m' pid tid k h =
      let (p, t, ep, et, e) = actualizar_contexto-ok m m' pid tid k h in
      obtener_contexto-eq m' pid tid
      ∙ ap (contexto_en pid tid) e
      ∙ contexto_en-eq pid tid _ (actualizar_proceso c tid k p) (escribir_tid k t)
          (find?-modify_p_self (tiene_el_mismo_pid pid) (tiene_el_mismo_pid pid)
            (actualizar_proceso c tid k) (λ x. refl) m.lista_de_procesos p ep)
          (find?-modify_p_self (tiene_el_mismo_tid tid) (tiene_el_mismo_tid tid) (escribir_tid k)
            (λ x. refl) p.tids t et)

  -- Storing a context leaves what every thread of another process reads unchanged, faults included.
  pub actualizar_contexto-otro_proceso :
      (m m' : Memoria) (pid tid : ℕ) (k : Contexto) (otro u : ℕ)
      → actualizar_contexto c m pid tid k ≡ ok m'
      → otro ≢ pid
      → obtener_contexto c m' otro u ≡ obtener_contexto c m otro u
  unfolding contexto_en
  actualizar_contexto-otro_proceso m m' pid tid k otro u h distinto =
      let (p, t, ep, et, e) = actualizar_contexto-ok m m' pid tid k h in
      obtener_contexto-eq m' otro u
      ∙ ap (contexto_en otro u) e
      ∙ ap
          (λ o.
            deref o
            >>= (λ q. deref (find? (tiene_el_mismo_tid u) q.tids) >>= (λ x. ok (contexto_de q x))))
          (find?-modify_p_ne (tiene_el_mismo_pid pid) (tiene_el_mismo_pid otro)
            (actualizar_proceso c tid k) (λ x hit. (ground arith, ground arith))
            m.lista_de_procesos)
      ∙ sym (obtener_contexto-eq m otro u)

  contexto_en-otro_hilo :
      (pid tid : ℕ) (k : Contexto) (u : ℕ) (j : Contexto) (xs : List Proceso) (p : Proceso)
      → find? (tiene_el_mismo_pid pid) xs ≡ some p
      → u ≢ tid
      → contexto_en pid u xs ≡ ok j
      → contexto_en pid u (modify_p (tiene_el_mismo_pid pid) (actualizar_proceso c tid k) xs)
        ≡ ok (record j { base = k.base; limite = k.limite })
  unfolding contexto_en
  contexto_en-otro_hilo pid tid k u j xs p ep distinto h =
      let (t, et, e) = >>=-eq-ok (deref (find? (tiene_el_mismo_tid u) p.tids)) _ (rw ep at h) in
      contexto_en-eq pid u _ (actualizar_proceso c tid k p) t
        (find?-modify_p_self (tiene_el_mismo_pid pid) (tiene_el_mismo_pid pid)
          (actualizar_proceso c tid k) (λ x. refl) xs p ep)
        (find?-modify_p_ne (tiene_el_mismo_tid tid) (tiene_el_mismo_tid u) (escribir_tid k)
            (λ x hit. (ground arith, ground arith)) p.tids
          ∙ deref-eq-ok _ et)
      ∙ ap
          (λ (r : Resultado Contexto).
            r >>= (λ x. ok (record x { base = k.base; limite = k.limite })))
          e

  -- Storing a context leaves the registers of every other thread of the same process unchanged; only
  -- the base and the limit, which they share, are the new ones.
  pub actualizar_contexto-otro_hilo :
      (m m' : Memoria) (pid tid : ℕ) (k : Contexto) (u : ℕ) (j : Contexto)
      → actualizar_contexto c m pid tid k ≡ ok m'
      → u ≢ tid
      → obtener_contexto c m pid u ≡ ok j
      → obtener_contexto c m' pid u ≡ ok (record j { base = k.base; limite = k.limite })
  actualizar_contexto-otro_hilo m m' pid tid k u j h distinto hj =
      let (p, t, ep, et, e) = actualizar_contexto-ok m m' pid tid k h in
      obtener_contexto-eq m' pid u
      ∙ ap (contexto_en pid u) e
      ∙ contexto_en-otro_hilo pid tid k u j m.lista_de_procesos p ep distinto
          (sym (obtener_contexto-eq m pid u) ∙ hj)
