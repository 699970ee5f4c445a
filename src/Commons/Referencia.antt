-- ===== src/Commons/Referencia.antt =====
-- A plain implementation of the list operations, which shows that the laws can be met. The ordering
-- is an insertion sort.
use mathlib.Core.List.Perm
use tp_sistemas_operativos.Base.{
  ◌≡◌, refl, Bool, true, false, List, [], ◌∷◌, ◌++◌, Perm, length, get_elem?, find?, erase_p,
  IsSorted, All, erase_idx, keep, fold1?, ◌==◌, if◌then◌else◌, Bool-cases, inl, inr,
}
use tp_sistemas_operativos.Commons.{Listas}

module _ {A : Type 0} (antes : A → A → Bool) where
  insertar : A → List A → List A
  insertar x [] = x ∷ []
  insertar x (y ∷ ys) = if antes x y then x ∷ y ∷ ys else y ∷ insertar x ys

  unfoldable pub ordenar : List A → List A
  unfolding insertar
  ordenar [] = []
  ordenar (x ∷ xs) = insertar x (ordenar xs)

  insertar-perm : (x : A) (ys : List A) → Perm (insertar x ys) (x ∷ ys)
  unfolding insertar
  insertar-perm x [] = Perm.refl (x ∷ [])
  insertar-perm x (y ∷ ys) = elim (Bool-cases (antes x y)) [
    | inl e ↦ rw e (Perm.refl (x ∷ y ∷ ys))
    | inr e ↦ rw e (Perm.trans (Perm.cons y (insertar-perm x ys)) (Perm.swap x y ys))
  ]

  pub ordenar-perm : (xs : List A) → Perm (ordenar xs) xs
  unfolding ordenar
  ordenar-perm [] = Perm.refl []
  ordenar-perm (x ∷ xs) = Perm.trans (insertar-perm x (ordenar xs)) (Perm.cons x (ordenar-perm xs))

  module _ (R : A → A → Type 0) (trans : (x y z : A) → R x y → R y z → R x z)
      (on_true : (x y : A) → antes x y ≡ true → R x y)
      (on_false : (x y : A) → antes x y ≡ false → R y x) where
    All-weaken : (x y : A) (ys : List A) → R x y → All (R y) ys → All (R x) ys
    All-weaken x y [] r h = tt
    All-weaken x y (z ∷ zs) r h = (trans x y z r h.0, All-weaken x y zs r h.1)

    All-insertar : (x y : A) (ys : List A) → R y x → All (R y) ys → All (R y) (insertar x ys)
    unfolding insertar
    All-insertar x y [] r h = (r, tt)
    All-insertar x y (z ∷ zs) r h = elim (Bool-cases (antes x z)) [
      | inl e ↦ rw e (r, h)
      | inr e ↦ rw e (h.0, All-insertar x y zs r h.1)
    ]

    insertar-IsSorted : (x : A) (ys : List A) → IsSorted R ys → IsSorted R (insertar x ys)
    unfolding insertar
    insertar-IsSorted x [] h = (tt, tt)
    insertar-IsSorted x (y ∷ ys) h = elim (Bool-cases (antes x y)) [
      | inl e ↦ rw e ((on_true x y e, All-weaken x y ys (on_true x y e) h.0), h)
      | inr e ↦ rw e (All-insertar x y ys (on_false x y e) h.0, insertar-IsSorted x ys h.1)
    ]

    pub ordenar-IsSorted : (xs : List A) → IsSorted R (ordenar xs)
    unfolding ordenar
    ordenar-IsSorted [] = tt
    ordenar-IsSorted (x ∷ xs) = insertar-IsSorted x (ordenar xs) (ordenar-IsSorted xs)

abbrev pub referencia : Listas
referencia = record {
  list_add = λ xs x. xs ++ (x ∷ []);
  list_get = λ xs i. get_elem? xs i;
  list_size = λ xs. length xs;
  list_find = λ xs p. find? p xs;
  list_remove_by_condition = λ xs p. (find? p xs, erase_p p xs);
  list_remove = λ xs i. (get_elem? xs i, erase_idx xs i);
  list_filter = λ xs p. keep p xs;
  list_is_empty = λ xs. length xs == 0;
  list_get_minimum = λ xs f. fold1? f xs;
  list_get_maximum = λ xs f. fold1? f xs;
  list_remove_element = λ xs p. erase_p p xs;
  list_sort = λ xs antes. ordenar antes xs;
  list_add_lem = λ xs x. refl;
  list_get_lem = λ xs i. refl;
  list_size_lem = λ xs. refl;
  list_find_lem = λ xs p. refl;
  list_remove_by_condition_lem = λ xs p. refl;
  list_remove_lem = λ xs i. refl;
  list_filter_lem = λ xs p. refl;
  list_is_empty_lem = λ xs. refl;
  list_get_minimum_lem = λ xs f. refl;
  list_get_maximum_lem = λ xs f. refl;
  list_remove_element_lem = λ xs p. refl;
  list_sort_perm = λ xs antes. ordenar-perm antes xs;
  list_sort_sorted = λ xs antes R t e f. ordenar-IsSorted antes R t e f xs;
}
