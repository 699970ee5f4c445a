-- ===== src/Memoria/Ajuste.antt =====
-- The searches `first_fit`, `best_fit` and `worst_fit` of memoria/src/mainMemoria.c against the order
-- that each one stands for.
use mathlib.Core.HLevel.{Π_prop}
use mathlib.Core.List.Perm
use native.Mathlib.Bridge.{le_prop}
use tp_sistemas_operativos.Base.{
  ℕ, ◌≤◌, ◌<◌, ◌≡◌, inl, inr, Bool, false, Option, none, some, List, [], ◌∷◌, arith, leb, Perm,
  find?, erase_p, IsSorted, All, All-perm, find?-none, find?_sound, erase_p-none, codes, strcmp_eq,
  Bool-cases, Option-cases, subst, leb→le,
}
use tp_sistemas_operativos.Commons.{Listas}
use tp_sistemas_operativos.Memoria.Huecos.{
  Hueco, menor_inicio, menor_tamanio, mayor_tamanio, entra, first_fit, best_fit, worst_fit,
  buscar_hueco_libre,
}

-- `h` comes no later than any hole that is large enough for `n`.
abbrev pub EsPrimero : (Hueco → Hueco → Type 0) → ℕ → List Hueco → Hueco → Type 0
EsPrimero R n huecos h = All (λ g. n ≤ g.tamanio → R h g) huecos

-- The answer of a search in the order `R`, with the list that it leaves: a hole that is large
-- enough and comes first among those that are, taken out of the list; or none, where every hole is
-- too small, and the list holds what it held.
abbrev pub Elige : (Hueco → Hueco → Type 0) → ℕ → List Hueco → Option Hueco × List Hueco → Type 0
Elige R n huecos (none, resto) = All (λ g. g.tamanio < n) huecos × Perm resto huecos
Elige R n huecos (some h, resto) =
    (n ≤ h.tamanio) × EsPrimero R n huecos h × Perm (h ∷ resto) huecos

erase_p-perm :
    (p : Hueco → Bool) (xs : List Hueco) (x : Hueco)
    → find? p xs ≡ some x
    → Perm (x ∷ erase_p p xs) xs
erase_p-perm p [] x h = cc
erase_p-perm p (y ∷ xs) x h = elim (Bool-cases (p y)) [
  | inl e ↦ rw e (Perm.cons' (ground arith) Perm.rfl)
  | inr e ↦ rw e (Perm.trans (Perm.swap y x _) (Perm.cons y (erase_p-perm p xs x (ground arith))))
]

module _ (R : Hueco → Hueco → Type 0) (reflexive : (h : Hueco) → R h h)
    (is_prop : (g h : Hueco) → IsProp (R g h)) (n : ℕ) where
  EsPrimero-of_All : (h : Hueco) (gs : List Hueco) → All (R h) gs → EsPrimero R n gs h
  EsPrimero-of_All h [] a = tt
  EsPrimero-of_All h (g ∷ gs) a = ((λ _. a.0), EsPrimero-of_All h gs a.1)

  -- In a sorted list the first hole that is large enough comes first among those that are.
  EsPrimero-find? :
      (hs : List Hueco) (h : Hueco)
      → IsSorted R hs
      → find? (entra n) hs ≡ some h
      → EsPrimero R n hs h
  EsPrimero-find? [] h s f = tt
  EsPrimero-find? (g ∷ gs) h s f = elim (Bool-cases (leb n g.tamanio)) [
    | inl e ↦
        let same : g ≡ h = ground arith in
        subst (EsPrimero R n (g ∷ gs)) same ((λ _. reflexive g), EsPrimero-of_All g gs s.0)
    | inr e ↦
        let small : ¬ (n ≤ g.tamanio) = ground arith in
        ((λ big. absurd (small big)), EsPrimero-find? gs h s.1 (ground arith))
  ]

  All-too_small : (hs : List Hueco) → All (λ g. entra n g ≡ false) hs → All (λ g. g.tamanio < n) hs
  All-too_small [] a = tt
  All-too_small (g ∷ gs) a = (ground (arith, a.0), All-too_small gs a.1)

  -- The search by removal over a sorted permutation of the holes.
  Elige-of_sorted :
      (huecos ordenados : List Hueco)
      → Perm ordenados huecos
      → IsSorted R ordenados
      → Elige R n huecos (find? (entra n) ordenados, erase_p (entra n) ordenados)
  Elige-of_sorted huecos ordenados p s = elim (Option-cases (find? (entra n) ordenados)) [
    | inl e ↦
        rw (e, erase_p-none (entra n) ordenados e)
          (
            All-perm (λ g. g.tamanio < n) (λ g. le_prop) p
                (All-too_small ordenados (find?-none (entra n) ordenados e)),
            p,
          )
    | inr (h, e) ↦ rw e (
      leb→le _ _ (find?_sound (entra n) ordenados h e),
      All-perm (λ g. n ≤ g.tamanio → R h g) (λ g. Π_prop (λ _. is_prop h g)) p
          (EsPrimero-find? ordenados h s e),
      Perm.trans (erase_p-perm (entra n) ordenados h e) p,
    )
  ]

module _ (c : Listas) (n : ℕ) (huecos : List Hueco) where
  -- First fit: the hole that starts lowest.
  pub first_fit-Elige : Elige (λ g h. g.inicio ≤ h.inicio) n huecos (first_fit c n huecos)
  unfolding first_fit
  first_fit-Elige =
      rw (c.list_remove_by_condition_lem (c.list_sort huecos menor_inicio) (entra n)) (
        Elige-of_sorted _ (λ h. omega arith) (λ g h. le_prop) n huecos _
          (c.list_sort_perm huecos menor_inicio)
          (c.list_sort_sorted huecos menor_inicio _ (λ x y z r t. omega arith)
            (λ x y e. ground arith) (λ x y e. ground arith)))

  -- Best fit: the smallest hole.
  pub best_fit-Elige : Elige (λ g h. g.tamanio ≤ h.tamanio) n huecos (best_fit c n huecos)
  unfolding best_fit
  best_fit-Elige =
      rw (c.list_remove_by_condition_lem (c.list_sort huecos menor_tamanio) (entra n)) (
        Elige-of_sorted _ (λ h. omega arith) (λ g h. le_prop) n huecos _
          (c.list_sort_perm huecos menor_tamanio)
          (c.list_sort_sorted huecos menor_tamanio _ (λ x y z r t. omega arith)
            (λ x y e. ground arith) (λ x y e. ground arith)))

  -- Worst fit: the largest hole.
  pub worst_fit-Elige : Elige (λ g h. h.tamanio ≤ g.tamanio) n huecos (worst_fit c n huecos)
  unfolding worst_fit
  worst_fit-Elige =
      rw (c.list_remove_by_condition_lem (c.list_sort huecos mayor_tamanio) (entra n)) (
        Elige-of_sorted _ (λ h. omega arith) (λ g h. le_prop) n huecos _
          (c.list_sort_perm huecos mayor_tamanio)
          (c.list_sort_sorted huecos mayor_tamanio _ (λ x y z r t. omega arith)
            (λ x y e. ground arith) (λ x y e. ground arith)))

  -- Under FIRST, BEST and WORST the search returns a hole that is large enough and, among those that
  -- are, starts lowest, is smallest, or is largest, and takes it out of the list; it returns none
  -- exactly when every hole is too small, and the list then holds what it held.
  pub buscar_hueco_libre-Elige :
      Elige (λ g h. g.inicio ≤ h.inicio) n huecos (buscar_hueco_libre c (codes "FIRST") n huecos)
      × Elige (λ g h. g.tamanio ≤ h.tamanio) n huecos (buscar_hueco_libre c (codes "BEST") n huecos)
      × Elige
          (λ g h. h.tamanio ≤ g.tamanio)
          n
          huecos
          (buscar_hueco_libre c (codes "WORST") n huecos)
  unfolding buscar_hueco_libre strcmp_eq
  buscar_hueco_libre-Elige = (first_fit-Elige, best_fit-Elige, worst_fit-Elige)
