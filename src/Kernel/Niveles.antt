-- ===== src/Kernel/Niveles.antt =====
-- The queues of many levels: `crear_colaReady` and `obtener_cola_multinivel` of kernel/src/pcbYtcb.c.
use tp_sistemas_operativos.Base.{
  ℕ, ◌≤◌, ◌<◌, ◌≡◌, refl, Bool, true, false, ◌||◌, ◌⊎◌, arith, none, some, List, [], ◌∷◌, ◌++◌,
  sum_of, sum_of-append, sum_of-perm, IsSorted, find?, ◌==◌, if◌then◌else◌, Bool-cases,
  Option-cases, inl, inr,
}
use tp_sistemas_operativos.Base.Resultado.{ok, salir}
use tp_sistemas_operativos.Commons.{Listas}
use tp_sistemas_operativos.Kernel.Colas.{
  usamos_multicolas, comparador_de_colas, tiene_prioridad, crear_cola_ready,
  obtener_cola_multinivel,
}
use tp_sistemas_operativos.Kernel.Estado.{Cola, Entorno}

abbrev pub uno_si : ℕ → Cola → ℕ
uno_si p q = if q.prioridad == p then 1 else 0

-- How many queues a priority has.
abbrev pub cuantas : ℕ → List Cola → ℕ
cuantas p xs = sum_of (uno_si p) xs

abbrev pub Antes : Cola → Cola → Type 0
Antes a b = a.prioridad ≤ b.prioridad

abbrev pub pedida : ℕ → List ℕ → Bool
pedida p [] = false
pedida p (r ∷ ps) = (r == p) || pedida p ps

cuantas-none : (p : ℕ) (xs : List Cola) → find? (tiene_prioridad p) xs ≡ none → cuantas p xs ≡ 0
cuantas-none p [] h = refl
cuantas-none p (x ∷ xs) h = ground (arith, cuantas-none p xs)

cuantas-some :
    (p : ℕ) (xs : List Cola) (q : Cola) → find? (tiene_prioridad p) xs ≡ some q → 0 < cuantas p xs
cuantas-some p [] q h = absurd (cc)
cuantas-some p (x ∷ xs) q h = ground (arith, cuantas-some p xs q)

find?-cuantas :
    (p : ℕ) (xs : List Cola)
    → 0 < cuantas p xs
    → (q : Cola) × (find? (tiene_prioridad p) xs ≡ some q) × (q.prioridad ≡ p)
find?-cuantas p [] h = absurd (omega arith)
find?-cuantas p (x ∷ xs) h = elim (Bool-cases (x.prioridad == p)) [
  | inl es ↦ (x, (rw es), ground arith)
  | inr otra ↦ (let (q, hq, hp) = find?-cuantas p xs (ground arith) in (q, (rw otra hq), hp))
]

module _ (c : Listas) (e : Entorno) where
  -- `crear_colaReady` for one thread after the other.
  abbrev pub crear_colas : List Cola → List ℕ → List Cola
  crear_colas colas [] = colas
  crear_colas colas (r ∷ ps) = crear_colas (crear_cola_ready c e colas r) ps

module _ (c : Listas) (e : Entorno) (cmn : usamos_multicolas e ≡ true) where
  crear_cola_ready-hay :
      (colas : List Cola) (r : ℕ) (q : Cola)
      → find? (tiene_prioridad r) colas ≡ some q
      → crear_cola_ready c e colas r ≡ colas
  unfolding crear_cola_ready
  crear_cola_ready-hay colas r q h =
      rw (crear_cola_ready, cmn, c.list_find_lem colas (tiene_prioridad r), h)

  crear_cola_ready-falta :
      (colas : List Cola) (r : ℕ)
      → find? (tiene_prioridad r) colas ≡ none
      → crear_cola_ready c e colas r
        ≡ c.list_sort
            (colas ++ (record { prioridad = r; cola_multinivel = [] } ∷ []))
            comparador_de_colas
  unfolding crear_cola_ready
  crear_cola_ready-falta colas r h = rw (
    crear_cola_ready,
    cmn,
    c.list_find_lem colas (tiene_prioridad r),
    h,
    c.list_add_lem colas (record { prioridad = r; cola_multinivel = [] }),
  )

  crear_cola_ready-cuantas :
      (colas : List Cola) (r p : ℕ)
      → cuantas p colas ≤ 1
      → cuantas p (crear_cola_ready c e colas r) ≡ (if r == p then 1 else cuantas p colas)
  crear_cola_ready-cuantas colas r p a_lo_sumo =
      elim (Option-cases (find? (tiene_prioridad r) colas)) [
        | inl falta ↦
            rw
              (
                crear_cola_ready-falta colas r falta,
                sum_of-perm (uno_si p) (
                    c.list_sort_perm
                      (colas ++ (record { prioridad = r; cola_multinivel = [] } ∷ []))
                      comparador_de_colas),
                sum_of-append (uno_si p) colas
                    (record { prioridad = r; cola_multinivel = [] } ∷ []),
              )
              (ground (arith, cuantas-none r colas falta))
        | inr (q, hay) ↦
            rw (crear_cola_ready-hay colas r q hay) (ground (arith, cuantas-some r colas q hay))
      ]

  crear_cola_ready-IsSorted :
      (colas : List Cola) (r : ℕ)
      → IsSorted Antes colas
      → IsSorted Antes (crear_cola_ready c e colas r)
  unfolding comparador_de_colas
  crear_cola_ready-IsSorted colas r h = elim (Option-cases (find? (tiene_prioridad r) colas)) [
    | inl falta ↦ rw (crear_cola_ready-falta colas r falta) (
        c.list_sort_sorted _ comparador_de_colas Antes (λ x y z xy yz. omega arith)
          (λ x y si. ground arith) (λ x y falso. ground arith))
    | inr (q, hay) ↦ rw (crear_cola_ready-hay colas r q hay) h
  ]

  crear_colas-cuantas :
      (ps : List ℕ) (colas : List Cola)
      → ((p : ℕ) → cuantas p colas ≤ 1)
      → (p : ℕ)
      → cuantas p (crear_colas c e colas ps) ≡ (if pedida p ps then 1 else cuantas p colas)
  crear_colas-cuantas [] colas h p = refl
  crear_colas-cuantas (r ∷ ps) colas h p =
      let paso : (q : ℕ)
          → cuantas q (crear_cola_ready c e colas r) ≡ (if r == q then 1 else cuantas q colas) =
        λ q. crear_cola_ready-cuantas colas r q (h q) in
      let resto =
        crear_colas-cuantas ps (crear_cola_ready c e colas r) (λ q. ground (arith, paso q, h q))
          p in
      ground (arith, resto, paso p)

  crear_colas-IsSorted :
      (ps : List ℕ) (colas : List Cola)
      → IsSorted Antes colas
      → IsSorted Antes (crear_colas c e colas ps)
  crear_colas-IsSorted [] colas h = h
  crear_colas-IsSorted (r ∷ ps) colas h =
      crear_colas-IsSorted ps (crear_cola_ready c e colas r) (crear_cola_ready-IsSorted colas r h)

  obtener_cola_multinivel-hay :
      (colas : List Cola) (p : ℕ)
      → 0 < cuantas p colas
      → (q : Cola) × (obtener_cola_multinivel c e colas p ≡ ok q) × (q.prioridad ≡ p)
  unfolding obtener_cola_multinivel
  obtener_cola_multinivel-hay colas p h =
      let (q, hq, es) = find?-cuantas p colas h in
      (q, (rw (obtener_cola_multinivel, c.list_find_lem colas (tiene_prioridad p), hq)), es)

  obtener_cola_multinivel-falta :
      (colas : List Cola) (p : ℕ)
      → cuantas p colas ≡ 0
      → obtener_cola_multinivel c e colas p ≡ salir
  unfolding obtener_cola_multinivel
  obtener_cola_multinivel-falta colas p h = elim (Option-cases (find? (tiene_prioridad p) colas)) [
    | inl falta ↦ rw (obtener_cola_multinivel, c.list_find_lem colas (tiene_prioridad p), falta)
    | inr (q, hay) ↦ (let alguna = cuantas-some p colas q hay in absurd (omega arith))
  ]

  -- Under CMN, when threads of any priorities have been created, in any order and with repetitions, the
  -- queues are in the order of their priorities; a priority that was asked for has one queue, which the
  -- search finds, and any other priority has none, on which the search ends the module.
  pub crear_cola_ready-obtener_cola_multinivel :
      (ps : List ℕ) (p : ℕ)
      → IsSorted Antes (crear_colas c e [] ps)
        × (((pedida p ps ≡ true)
              × (cuantas p (crear_colas c e [] ps) ≡ 1)
              × ((q : Cola) × (obtener_cola_multinivel c e (crear_colas c e [] ps) p ≡ ok q)
                  × (q.prioridad ≡ p)))
            ⊎ ((pedida p ps ≡ false)
                × (cuantas p (crear_colas c e [] ps) ≡ 0)
                × (obtener_cola_multinivel c e (crear_colas c e [] ps) p ≡ salir)))
  crear_cola_ready-obtener_cola_multinivel ps p =
      let numero = crear_colas-cuantas ps [] (λ p. omega arith) p in
      (
        crear_colas-IsSorted ps [] tt,
        elim (Bool-cases (pedida p ps)) [
          | inl si ↦
              (let una : cuantas p (crear_colas c e [] ps) ≡ 1 = ground (arith, numero) in
                inl (si, una, obtener_cola_multinivel-hay (crear_colas c e [] ps) p (omega arith)))
          | inr falta ↦
              (let ninguna : cuantas p (crear_colas c e [] ps) ≡ 0 = ground (arith, numero) in
                inr
                  (falta, ninguna, obtener_cola_multinivel-falta (crear_colas c e [] ps) p ninguna))
        ],
      )
