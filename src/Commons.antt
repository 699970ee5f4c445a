-- ===== src/Commons.antt =====
-- The so-commons-library, which the program calls and does not hold: its operations are parameters
-- of the model, with what its documentation says of each as a named law. A `t_list` of pointers is
-- the list of what the pointers point to.
pub mod Referencia
use tp_sistemas_operativos.Base.{
  ℕ, ◌≡◌, Bool, true, false, Option, List, [], ◌∷◌, ◌++◌, Perm, length, get_elem?, erase_idx, find?,
  erase_p, IsSorted, keep, fold1?, ◌==◌,
}

-- `commons/collections/list.h`.
pub record Listas : Type 1 where
  pub list_add : {A : Type 0} → List A → A → List A
  pub list_get : {A : Type 0} → List A → ℕ → Option A
  pub list_size : {A : Type 0} → List A → ℕ
  pub list_find : {A : Type 0} → List A → (A → Bool) → Option A
  pub list_remove_by_condition : {A : Type 0} → List A → (A → Bool) → Option A × List A
  pub list_remove : {A : Type 0} → List A → ℕ → Option A × List A
  pub list_filter : {A : Type 0} → List A → (A → Bool) → List A
  pub list_is_empty : {A : Type 0} → List A → Bool
  pub list_get_minimum : {A : Type 0} → List A → (A → A → A) → Option A
  pub list_get_maximum : {A : Type 0} → List A → (A → A → A) → Option A
  -- The pointer is given by the test that only the element behind it passes first.
  pub list_remove_element : {A : Type 0} → List A → (A → Bool) → List A
  pub list_sort : {A : Type 0} → List A → (A → A → Bool) → List A
  -- Adds an element at the end of the list.
  pub list_add_lem : {A : Type 0} (xs : List A) (x : A) → list_add xs x ≡ xs ++ (x ∷ [])
  -- Returns the content of a position, NULL out of range.
  pub list_get_lem : {A : Type 0} (xs : List A) (i : ℕ) → list_get xs i ≡ get_elem? xs i
  pub list_size_lem : {A : Type 0} (xs : List A) → list_size xs ≡ length xs
  -- Returns the first element that makes the condition true, NULL if none does.
  pub list_find_lem : {A : Type 0} (xs : List A) (p : A → Bool) → list_find xs p ≡ find? p xs
  -- Removes the first element that makes the condition true, and returns it.
  pub list_remove_by_condition_lem :
      {A : Type 0} (xs : List A) (p : A → Bool)
      → list_remove_by_condition xs p ≡ (find? p xs, erase_p p xs)
  -- Removes the element of a position, and returns it; out of range, NULL and the list as it was.
  pub list_remove_lem :
      {A : Type 0} (xs : List A) (i : ℕ) → list_remove xs i ≡ (get_elem? xs i, erase_idx xs i)
  -- A new list with the elements that make the condition true.
  pub list_filter_lem : {A : Type 0} (xs : List A) (p : A → Bool) → list_filter xs p ≡ keep p xs
  pub list_is_empty_lem : {A : Type 0} (xs : List A) → list_is_empty xs ≡ (length xs == 0)
  -- Both compare the elements from the first on by the comparator, which returns one of the two; NULL
  -- on an empty list. What they find is up to the comparator.
  pub list_get_minimum_lem :
      {A : Type 0} (xs : List A) (f : A → A → A) → list_get_minimum xs f ≡ fold1? f xs
  pub list_get_maximum_lem :
      {A : Type 0} (xs : List A) (f : A → A → A) → list_get_maximum xs f ≡ fold1? f xs
  -- Takes the element out of the list.
  pub list_remove_element_lem :
      {A : Type 0} (xs : List A) (p : A → Bool) → list_remove_element xs p ≡ erase_p p xs
  -- Orders the list: the elements stay the same, and under a comparator that decides a transitive
  -- order the earlier ones come first.
  pub list_sort_perm :
      {A : Type 0} (xs : List A) (antes : A → A → Bool) → Perm (list_sort xs antes) xs
  pub list_sort_sorted :
      {A : Type 0} (xs : List A) (antes : A → A → Bool) (R : A → A → Type 0)
      → ((x y z : A) → R x y → R y z → R x z)
      → ((x y : A) → antes x y ≡ true → R x y)
      → ((x y : A) → antes x y ≡ false → R y x)
      → IsSorted R (list_sort xs antes)
