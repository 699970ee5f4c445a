-- ===== src/Base/Lists.antt =====
-- Lists measured and indexed by native numbers, the first element that passes a test, sums over
-- lists, and predicates by recursion.
use Prim.Native.Nat.{ℕ, zero, suc, ◌+◌, ◌-◌, ◌≤◌}
use mathlib.Core.Bool.{Bool, true, false}
use mathlib.Core.HLevel.{×_prop, Unit-prop}
use mathlib.Core.List.{List, [], ◌∷◌, ◌++◌, Perm, Permᴰ}
use mathlib.Core.Logic.{◌⊎◌, inl, inr, ∥∥₁_elim}
use mathlib.Core.Option.{Option, none, some}
use mathlib.Core.Path.{◌≡◌, refl, ap, ◌∙◌, subst}
use native.Mathlib.Nat.{ℕ_set}
use native.Mathlib.Omega.{arith}
use tp_sistemas_operativos.Base.Tests.{if◌then◌else◌, Bool-cases}

module _ {ℓ} {A : Type ℓ} where
  abbrev pub length : List A → ℕ
  length [] = 0
  length (x ∷ xs) = suc (length xs)

  abbrev pub get_elem? : List A → ℕ → Option A
  get_elem? [] i = none
  get_elem? (x ∷ xs) zero = some x
  get_elem? (x ∷ xs) (suc i) = get_elem? xs i

  -- The list without the element at a position; out of range, the whole list.
  abbrev pub erase_idx : List A → ℕ → List A
  erase_idx [] i = []
  erase_idx (x ∷ xs) zero = xs
  erase_idx (x ∷ xs) (suc i) = x ∷ erase_idx xs i

  abbrev pub take : ℕ → List A → List A
  take zero xs = []
  take (suc n) [] = []
  take (suc n) (x ∷ xs) = x ∷ take n xs

  abbrev pub drop : ℕ → List A → List A
  drop zero xs = xs
  drop (suc n) [] = []
  drop (suc n) (x ∷ xs) = drop n xs

  abbrev pub replicate : ℕ → A → List A
  replicate zero a = []
  replicate (suc n) a = a ∷ replicate n a

  abbrev pub find? : (A → Bool) → List A → Option A
  find? p [] = none
  find? p (x ∷ xs) = if p x then some x else find? p xs

  -- The list without the first element that passes the test.
  abbrev pub erase_p : (A → Bool) → List A → List A
  erase_p p [] = []
  erase_p p (x ∷ xs) = if p x then xs else x ∷ erase_p p xs

  -- The list with the first element that passes the test replaced by its image: a write through the
  -- pointer that a search returned.
  abbrev pub modify_p : (A → Bool) → (A → A) → List A → List A
  modify_p p f [] = []
  modify_p p f (x ∷ xs) = if p x then f x ∷ xs else x ∷ modify_p p f xs

  abbrev pub keep : (A → Bool) → List A → List A
  keep p [] = []
  keep p (x ∷ xs) = if p x then x ∷ keep p xs else keep p xs

  abbrev pub fold_from : (A → A → A) → A → List A → A
  fold_from f a [] = a
  fold_from f a (x ∷ xs) = fold_from f (f a x) xs

  -- The elements put together from the first on, if there is one.
  abbrev pub fold1? : (A → A → A) → List A → Option A
  fold1? f [] = none
  fold1? f (x ∷ xs) = some (fold_from f x xs)

  abbrev pub All {κ} : (A → Type κ) → List A → Type κ
  All P [] = Unit
  All P (x ∷ xs) = P x × All P xs

  -- Every element stands in the relation to all that come after it.
  abbrev pub IsSorted {κ} : (A → A → Type κ) → List A → Type (ℓ ⊔ κ)
  IsSorted R [] = Unit
  IsSorted R (x ∷ xs) = All (R x) xs × IsSorted R xs

  abbrev pub sum_of : (A → ℕ) → List A → ℕ
  sum_of f [] = 0
  sum_of f (x ∷ xs) = f x + sum_of f xs

module _ {ℓ} {A : Type ℓ} where
  pub length-append : (xs ys : List A) → length (xs ++ ys) ≡ length xs + length ys
  length-append [] ys = omega arith
  length-append (x ∷ xs) ys = omega (arith, length-append xs ys)

  pub sum_of-append : (f : A → ℕ) (xs ys : List A) → sum_of f (xs ++ ys) ≡ sum_of f xs + sum_of f ys
  sum_of-append f [] ys = omega arith
  sum_of-append f (x ∷ xs) ys = omega (arith, sum_of-append f xs ys)

  pub length-replicate : (n : ℕ) (a : A) → length (replicate n a) ≡ n
  length-replicate zero a = refl
  length-replicate (suc n) a = ap suc (length-replicate n a)

  sum_of-permᴰ : (f : A → ℕ) {xs ys : List A} → Permᴰ xs ys → sum_of f xs ≡ sum_of f ys
  sum_of-permᴰ f Permᴰ.nil = refl
  sum_of-permᴰ f (Permᴰ.cons e p) = omega (arith, ap f e, sum_of-permᴰ f p)
  sum_of-permᴰ f (Permᴰ.swap e d) = omega (arith, ap f e, ap f d)
  sum_of-permᴰ f (Permᴰ.trans p q) = sum_of-permᴰ f p ∙ sum_of-permᴰ f q

  pub sum_of-perm : (f : A → ℕ) {xs ys : List A} → Perm xs ys → sum_of f xs ≡ sum_of f ys
  sum_of-perm f p = ∥∥₁_elim p (ℕ_set _ _) (sum_of-permᴰ f)

module _ {ℓ} {A : Type ℓ} (p : A → Bool) where
  -- What a search returns passes the test.
  pub find?_sound : (xs : List A) (x : A) → find? p xs ≡ some x → p x ≡ true
  find?_sound [] x h = cc
  find?_sound (y ∷ xs) x h = ground (arith, find?_sound xs x)

  pub find?-none : (xs : List A) → find? p xs ≡ none → All (λ x. p x ≡ false) xs
  find?-none [] h = tt
  find?-none (y ∷ xs) h = ground (arith, find?-none xs)

  pub sum_of-erase_p :
      (f : A → ℕ) (xs : List A) (x : A)
      → find? p xs ≡ some x
      → sum_of f xs ≡ f x + sum_of f (erase_p p xs)
  sum_of-erase_p f [] x h = cc
  sum_of-erase_p f (y ∷ xs) x h = ground (arith, sum_of-erase_p f xs x)

  pub sum_of-modify_p :
      (f : A → ℕ) (g : A → A) (xs : List A) (x : A)
      → find? p xs ≡ some x
      → sum_of f (modify_p p g xs) + f x ≡ sum_of f xs + f (g x)
  sum_of-modify_p f g [] x h = cc
  sum_of-modify_p f g (y ∷ xs) x h = ground (arith, sum_of-modify_p f g xs x)

  pub erase_p-none : (xs : List A) → find? p xs ≡ none → erase_p p xs ≡ xs
  erase_p-none [] h = refl
  erase_p-none (y ∷ xs) h = ground (arith, erase_p-none xs)

  -- A search by a test that the write does not change finds the same element, or its new version.
  pub find?-modify_p :
      (q : A → Bool) (g : A → A)
      → ((x : A) → q (g x) ≡ q x)
      → (xs : List A) (y : A) → find? q xs ≡ some y
      → (find? q (modify_p p g xs) ≡ some y)
        ⊎ ((find? p xs ≡ some y) × (find? q (modify_p p g xs) ≡ some (g y)))
  find?-modify_p q g same [] y h = cc
  find?-modify_p q g same (x ∷ xs) y h = ground (arith, same x, find?-modify_p q g same xs y)

module _ {ℓ κ} {A : Type ℓ} (P : A → Type κ) where
  pub All-append : (xs ys : List A) → All P xs → All P ys → All P (xs ++ ys)
  All-append [] ys hx hy = hy
  All-append (x ∷ xs) ys hx hy = (hx.0, All-append xs ys hx.1 hy)

  pub All-find? : (p : A → Bool) (xs : List A) {x : A} → All P xs → find? p xs ≡ some x → P x
  All-find? p [] h e = cc
  All-find? p (y ∷ xs) h e = elim (Bool-cases (p y)) [
    | inl hit ↦ subst P (ground arith) h.0
    | inr miss ↦ All-find? p xs h.1 (ground arith)
  ]

  pub All-erase_p : (p : A → Bool) (xs : List A) → All P xs → All P (erase_p p xs)
  All-erase_p p [] h = tt
  All-erase_p p (y ∷ xs) h = elim (Bool-cases (p y)) [
    | inl hit ↦ rw hit h.1
    | inr miss ↦ rw miss (h.0, All-erase_p p xs h.1)
  ]

  -- The new version is asked for at the element that the search finds.
  pub All-modify_p :
      (p : A → Bool) (g : A → A) (xs : List A)
      → ((x : A) → find? p xs ≡ some x → P (g x))
      → All P xs
      → All P (modify_p p g xs)
  All-modify_p p g [] new h = tt
  All-modify_p p g (y ∷ xs) new h = elim (Bool-cases (p y)) [
    | inl hit ↦ rw hit (new y (rw hit), h.1)
    | inr miss ↦ rw miss (h.0, All-modify_p p g xs (λ x e. new x (rw miss e)) h.1)
  ]

  All-permᴰ : {xs ys : List A} → Permᴰ xs ys → All P xs → All P ys
  All-permᴰ Permᴰ.nil h = tt
  All-permᴰ (Permᴰ.cons e p) h = (subst P e h.0, All-permᴰ p h.1)
  All-permᴰ (Permᴰ.swap e d) h = (subst P d h.1.0, (subst P e h.0, h.1.1))
  All-permᴰ (Permᴰ.trans p q) h = All-permᴰ q (All-permᴰ p h)

  All-prop : ((x : A) → IsProp (P x)) → (xs : List A) → IsProp (All P xs)
  All-prop each [] = Unit-prop
  All-prop each (x ∷ xs) = ×_prop (each x) (All-prop each xs)

  pub All-perm : ((x : A) → IsProp (P x)) → {xs ys : List A} → Perm xs ys → All P xs → All P ys
  All-perm each {ys = ys} p h = ∥∥₁_elim p (All-prop each ys) (λ d. All-permᴰ d h)

-- Writes and searches by tests that can not both hold.
module _ {ℓ} {A : Type ℓ} (p q : A → Bool) (f : A → A) where
  pub find?-modify_p_self :
      ((x : A) → p (f x) ≡ p x)
      → (xs : List A) (x : A) → find? p xs ≡ some x
      → find? p (modify_p p f xs) ≡ some (f x)
  find?-modify_p_self same [] x h = cc
  find?-modify_p_self same (y ∷ xs) x h = ground (arith, same y, find?-modify_p_self same xs x)

  pub find?-modify_p_ne :
      ((x : A) → p x ≡ true → (q x ≡ false) × (q (f x) ≡ false))
      → (xs : List A) → find? q (modify_p p f xs) ≡ find? q xs
  find?-modify_p_ne apart [] = refl
  find?-modify_p_ne apart (y ∷ xs) = elim (Bool-cases (p y)) [
    | inl hit ↦ rw (hit, (apart y hit).0, (apart y hit).1)
    | inr miss ↦ rw (miss, find?-modify_p_ne apart xs)
  ]

module _ {ℓ} {A : Type ℓ} where
  pub length-take_le : (n : ℕ) (xs : List A) → n ≤ length xs → length (take n xs) ≡ n
  length-take_le zero xs h = refl
  length-take_le (suc n) [] h = absurd (omega arith)
  length-take_le (suc n) (x ∷ xs) h = ap suc (length-take_le n xs (omega arith))

  pub take-append-drop : (n : ℕ) (xs : List A) → take n xs ++ drop n xs ≡ xs
  take-append-drop zero xs = refl
  take-append-drop (suc n) [] = refl
  take-append-drop (suc n) (x ∷ xs) = rw (take-append-drop n xs)

  take-append_le : (n : ℕ) (xs ys : List A) → n ≤ length xs → take n (xs ++ ys) ≡ take n xs
  take-append_le zero xs ys h = refl
  take-append_le (suc n) [] ys h = absurd (omega arith)
  take-append_le (suc n) (x ∷ xs) ys h = ap (◌∷◌ x) (take-append_le n xs ys (omega arith))

  -- A block that lies in the first list.
  pub take-drop-append :
      (n e : ℕ) (xs ys : List A)
      → e + n ≤ length xs
      → take n (drop e (xs ++ ys)) ≡ take n (drop e xs)
  take-drop-append n zero xs ys h = take-append_le n xs ys (omega arith)
  take-drop-append n (suc e) [] ys h = absurd (omega arith)
  take-drop-append n (suc e) (x ∷ xs) ys h = take-drop-append n e xs ys (omega arith)

  -- A position behind the first list.
  pub drop-append_ge :
      (e : ℕ) (xs ys : List A) → length xs ≤ e → drop e (xs ++ ys) ≡ drop (e - length xs) ys
  drop-append_ge e [] ys h = ap (λ (k : ℕ). drop k ys) (omega arith)
  drop-append_ge zero (x ∷ xs) ys h = absurd (omega arith)
  drop-append_ge (suc e) (x ∷ xs) ys h =
      drop-append_ge e xs ys (omega arith) ∙ ap (λ (k : ℕ). drop k ys) (omega arith)
