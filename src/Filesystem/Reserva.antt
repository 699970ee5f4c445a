-- ===== src/Filesystem/Reserva.antt =====
-- The reservation of blocks of filesystem/src/mainFS.c against the check that comes before it.
use tp_sistemas_operativos.Base.{
  ℕ, zero, suc, ◌+◌, ◌≤◌, ◌<◌, ◌≡◌, ◌∙◌, refl, ap, inl, inr, Bool, true, false, ◌||◌, List, [], ◌∷◌,
  arith, ◌==◌, ==→eq, add32, u32_mod, length, All, IsSorted, Bool-cases,
}
use tp_sistemas_operativos.Filesystem.Bitmap.{
  Bitarrays, hay_desde, hay_espacio_disponible, bloques_desde, asignar, reservar_bloques,
}

-- Whether the list holds the number.
unfoldable pub esta : ℕ → List ℕ → Bool
esta j [] = false
esta j (x ∷ xs) = (j == x) || esta j xs

module _ (a : Bitarrays) where
  open a use {Bitarray, get_max_bit, test_bit, set_bit}

  -- The block is free and its bit is one of those from `i` to before `fin`.
  abbrev pub EsLibre : Bitarray → ℕ → ℕ → ℕ → Type 0
  EsLibre b i fin j = (i ≤ j) × (j < fin) × (test_bit b j ≡ false)

  bloques_desde-hay_desde :
      (b : Bitarray) (n i r k : ℕ) → (bloques_desde a b n i r k).1 ≡ hay_desde a b n i r k
  unfolding bloques_desde hay_desde
  bloques_desde-hay_desde b n i zero k = refl
  bloques_desde-hay_desde b n i (suc r) k = elim (Bool-cases (test_bit b i)) [
    | inl e ↦ rw e (bloques_desde-hay_desde b n (suc i) r k)
    | inr e ↦ rw e (ground (arith, bloques_desde-hay_desde b n (suc i) r (add32 k 1)))
  ]

  bloques_desde-length :
      (b : Bitarray) (n i r k : ℕ)
      → k < n
      → n < u32_mod
      → (bloques_desde a b n i r k).1 ≡ true
      → k + length (bloques_desde a b n i r k).0 ≡ n
  unfolding bloques_desde
  bloques_desde-length b n i zero k h s e = cc
  bloques_desde-length b n i (suc r) k h s e = elim (Bool-cases (test_bit b i)) [
    | inl t ↦ rw t (bloques_desde-length b n (suc i) r k h s (rw t at e))
    | inr t ↦ elim (Bool-cases (add32 k 1 == n)) [
      | inl u ↦ rw (t, u) (omega (arith, ==→eq (add32 k 1) n u))
      | inr u ↦
          let sigue : add32 k 1 < n = ground arith in
          rw (t, u)
            (omega (arith, bloques_desde-length b n (suc i) r (add32 k 1) sigue s (rw (t, u) at e)))
    ]
  ]

  EsLibre-weaken :
      (b : Bitarray) (i fin : ℕ) (js : List ℕ)
      → All (EsLibre b (suc i) fin) js
      → All (EsLibre b i fin) js
  EsLibre-weaken b i fin [] h = tt
  EsLibre-weaken b i fin (j ∷ js) h =
      ((omega (arith, h.0.0), h.0.1, h.0.2), EsLibre-weaken b i fin js h.1)

  EsLibre-below :
      (b : Bitarray) (i fin : ℕ) (js : List ℕ)
      → All (EsLibre b (suc i) fin) js
      → All (λ j. i < j) js
  EsLibre-below b i fin [] h = tt
  EsLibre-below b i fin (j ∷ js) h = (h.0.0, EsLibre-below b i fin js h.1)

  bloques_desde-EsLibre :
      (b : Bitarray) (n i r k fin : ℕ)
      → i + r ≡ fin
      → All (EsLibre b i fin) (bloques_desde a b n i r k).0
        × IsSorted (λ x y. x < y) (bloques_desde a b n i r k).0
  unfolding bloques_desde
  bloques_desde-EsLibre b n i zero k fin f = (tt, tt)
  bloques_desde-EsLibre b n i (suc r) k fin f = elim (Bool-cases (test_bit b i)) [
    | inl t ↦
        let (libres, orden) = bloques_desde-EsLibre b n (suc i) r k fin (omega arith) in
        rw t (EsLibre-weaken b i fin _ libres, orden)
    | inr t ↦ elim (Bool-cases (add32 k 1 == n)) [
      | inl u ↦ rw (t, u) (((omega arith, omega arith, t), tt), (tt, tt))
      | inr u ↦
          let (libres, orden) = bloques_desde-EsLibre b n (suc i) r (add32 k 1) fin (omega arith) in
          rw (t, u)
            (
              ((omega arith, omega arith, t), EsLibre-weaken b i fin _ libres),
              (EsLibre-below b i fin _ libres, orden),
            )
    ]
  ]

  asignar-test_bit :
      (b : Bitarray) (bloques : List ℕ) (j : ℕ)
      → All (λ x. x < get_max_bit b) bloques
      → test_bit (asignar a b bloques) j ≡ (test_bit b j || esta j bloques)
  unfolding asignar esta
  asignar-test_bit b [] j h = ground arith
  asignar-test_bit b (x ∷ xs) j h =
      let paso = asignar-test_bit (set_bit b x) xs j (rw (a.get_max_bit-set_bit b x) h.1) in
      elim (Bool-cases (j == x)) [
        | inl e ↦
            let puesto : test_bit (set_bit b x) j ≡ true =
              ap (test_bit (set_bit b x)) (==→eq j x e) ∙ a.test_bit-set_bit b x h.0 in
            rw (paso, e, puesto) (ground arith)
        | inr e ↦ rw (paso, e, a.test_bit-set_bit_ne b x j (ground arith))
      ]

  EsLibre-lt :
      (b : Bitarray) (fin : ℕ) (js : List ℕ) → All (EsLibre b 0 fin) js → All (λ x. x < fin) js
  EsLibre-lt b fin [] h = tt
  EsLibre-lt b fin (j ∷ js) h = (h.0.1, EsLibre-lt b fin js h.1)

  -- When the check says that there are `n` free blocks, for `n` from 1 to 2 ^ 32 - 1, the reservation
  -- that follows it on the same bitmap returns exactly `n` blocks, in increasing order, each free and
  -- within the bitmap, and afterwards exactly these and those that were taken before are taken.
  pub hay_espacio_disponible-reservar_bloques :
      (b : Bitarray) (n : ℕ)
      → 0 < n
      → n < u32_mod
      → hay_espacio_disponible a b n ≡ true
      → (length (reservar_bloques a b n).0 ≡ n)
        × IsSorted (λ x y. x < y) (reservar_bloques a b n).0
        × All (EsLibre b 0 (get_max_bit b)) (reservar_bloques a b n).0
        × ((j : ℕ)
            → test_bit (reservar_bloques a b n).1 j
              ≡ (test_bit b j || esta j (reservar_bloques a b n).0))
  unfolding reservar_bloques hay_espacio_disponible
  hay_espacio_disponible-reservar_bloques b n positivo pequeno hay =
      let max = get_max_bit b in
      let alcanza = bloques_desde-hay_desde b n 0 max 0 ∙ hay in
      let (libres, orden) = bloques_desde-EsLibre b n 0 max 0 max (omega arith) in
      (
        omega (arith, bloques_desde-length b n 0 max 0 positivo pequeno alcanza),
        orden,
        libres,
        λ j. rw alcanza (asignar-test_bit b _ j (EsLibre-lt b max _ libres)),
      )

  -- When the check fails, a reservation of as many blocks leaves the bitmap as it was.
  pub hay_espacio_disponible-sin_espacio :
      (b : Bitarray) (n : ℕ) → hay_espacio_disponible a b n ≡ false → (reservar_bloques a b n).1 ≡ b
  unfolding reservar_bloques hay_espacio_disponible
  hay_espacio_disponible-sin_espacio b n hay =
      rw (bloques_desde-hay_desde b n 0 (get_max_bit b) 0 ∙ hay)
