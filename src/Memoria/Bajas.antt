-- ===== src/Memoria/Bajas.antt =====
-- `eliminar_proceso_de_la_lista`, which picks a process by `pid >= ` the one asked for, against
-- `obtener_proceso`, which picks it by equality.
use tp_sistemas_operativos.Base.{
  ℕ, ◌<◌, ◌≡◌, ◌∙◌, refl, sym, ap, subst, true, false, some, List, [], ◌∷◌, arith, ◌==◌, find?,
  erase_p, All, IsSorted, Bool-cases, ==→eq, All-find?, find?_sound, inl, inr,
}
use tp_sistemas_operativos.Commons.{Listas}
use tp_sistemas_operativos.Memoria.Procesos.{
  Proceso, tiene_el_mismo_pid, tiene_pid_desde, obtener_proceso, eliminar_proceso_de_la_lista,
}

-- The list is in the order of the ids, as it is when processes are added by increasing id.
abbrev pub EstaOrdenadaPorPid : List Proceso → Type 0
EstaOrdenadaPorPid = IsSorted (λ p q. p.pid < q.pid)

-- The list without every process of an id.
unfoldable pub sin_pid : ℕ → List Proceso → List Proceso
sin_pid pid [] = []
sin_pid pid (p ∷ ps) =
    let rest = sin_pid pid ps in elim (p.pid == pid) [ true ↦ rest | false ↦ p ∷ rest ]

sin_pid-mayores : (pid : ℕ) (ps : List Proceso) → All (λ q. pid < q.pid) ps → sin_pid pid ps ≡ ps
unfolding sin_pid
sin_pid-mayores pid [] h = refl
sin_pid-mayores pid (p ∷ ps) h = ground (arith, h.0, sin_pid-mayores pid ps h.1)

-- The search by equality and the removal by order meet at the same process.
sin_pid-erase_p :
    (pid : ℕ) (ps : List Proceso) (p : Proceso)
    → EstaOrdenadaPorPid ps
    → find? (tiene_el_mismo_pid pid) ps ≡ some p
    → (find? (tiene_pid_desde pid) ps ≡ some p)
      × (erase_p (tiene_pid_desde pid) ps ≡ sin_pid pid ps)
unfolding sin_pid
sin_pid-erase_p pid [] p orden h = cc
sin_pid-erase_p pid (q ∷ ps) p orden h = elim (Bool-cases (q.pid == pid)) [
  | inl hit ↦
      let mayores : All (λ r. pid < r.pid) ps =
        subst (λ (n : ℕ). All (λ r. n < r.pid) ps) (==→eq q.pid pid hit) orden.0 in
      ground (arith, sin_pid-mayores pid ps mayores)
  | inr miss ↦
      let h' : find? (tiene_el_mismo_pid pid) ps ≡ some p = ground arith in
      ground (
        arith,
        All-find? (λ r. q.pid < r.pid) (tiene_el_mismo_pid pid) ps orden.0 h',
        find?_sound (tiene_el_mismo_pid pid) ps p h',
        sin_pid-erase_p pid ps p orden.1 h',
      )
]

module _ (c : Listas) where
  -- On a list in the order of the ids that has a process of the id, the removal returns exactly the
  -- process that the search finds, and leaves exactly the processes of the other ids.
  pub eliminar_proceso_de_la_lista-ordenada :
      (pid : ℕ) (ps : List Proceso) (p : Proceso)
      → EstaOrdenadaPorPid ps
      → obtener_proceso c pid ps ≡ some p
      → eliminar_proceso_de_la_lista c pid ps ≡ (some p, sin_pid pid ps)
  unfolding obtener_proceso eliminar_proceso_de_la_lista
  eliminar_proceso_de_la_lista-ordenada pid ps p orden h =
      let (e, r) = sin_pid-erase_p pid ps p orden (sym (c.list_find_lem _ _) ∙ h) in
      c.list_remove_by_condition_lem ps (tiene_pid_desde pid)
      ∙ ap (λ o. (o, erase_p (tiene_pid_desde pid) ps)) e
      ∙ ap (λ (qs : List Proceso). (some p, qs)) r
