-- ===== src/Base/Minimo.antt =====
-- The minimum of a list by a key, as a fold from the first element on that keeps the earlier of two.
use tp_sistemas_operativos.Base.Lists.{All, keep, find?, fold_from, fold1?, length, erase_p}
use tp_sistemas_operativos.Base.Tests.{leb, ◌==◌, if◌then◌else◌, Bool-cases}
use Prim.Native.Nat.{ℕ, ◌+◌, ◌≤◌}
use mathlib.Core.Bool.{Bool, false, ◌&&◌}
use mathlib.Core.List.{List, [], ◌∷◌}
use mathlib.Core.Logic.{inl, inr}
use mathlib.Core.Option.{some}
use mathlib.Core.Path.{◌≡◌, refl, ap}
use native.Mathlib.Omega.{arith}

module _ {ℓ} {A : Type ℓ} (clave : A → ℕ) where
  abbrev pub menor : A → A → A
  menor a b = if leb (clave a) (clave b) then a else b

  abbrev pub tiene_clave : A → A → Bool
  tiene_clave m x = clave x == clave m

  -- The fold finds the first of the elements with the least key.
  fold_from-menor :
      (a : A) (xs : List A) (m : A)
      → fold_from menor a xs ≡ m
      → (clave m ≤ clave a)
        × All (λ x. clave m ≤ clave x) xs
        × (find? (tiene_clave m) (a ∷ xs) ≡ some m)
  fold_from-menor a [] m h = ground (arith, ap clave h)
  fold_from-menor a (x ∷ xs) m h = elim (Bool-cases (leb (clave a) (clave x))) [
    | inl e ↦
        let (le, all, f) = fold_from-menor a xs m (cc) in (le, (ground arith, all), ground arith)
    | inr e ↦
        let (le, all, f) = fold_from-menor x xs m (cc) in
        let otra : (clave a == clave m) ≡ false = ground arith in
        (ground arith, (le, all), rw otra f)
  ]

  pub fold1?-menor :
      (xs : List A) (m : A)
      → fold1? menor xs ≡ some m
      → All (λ x. clave m ≤ clave x) xs × (find? (tiene_clave m) xs ≡ some m)
  fold1?-menor [] m h = cc
  fold1?-menor (x ∷ xs) m h = let (le, all, f) = fold_from-menor x xs m (cc) in ((le, all), f)

module _ {ℓ} {A : Type ℓ} (p q : A → Bool) where
  pub find?-keep : (xs : List A) → find? q (keep p xs) ≡ find? (λ x. q x && p x) xs
  find?-keep [] = refl
  find?-keep (x ∷ xs) = ground (arith, find?-keep xs)

module _ {ℓ} {A : Type ℓ} (p : A → Bool) where
  pub length-erase_p :
      (xs : List A) (x : A) → find? p xs ≡ some x → length xs ≡ length (erase_p p xs) + 1
  length-erase_p [] x h = cc
  length-erase_p (y ∷ xs) x h = ground (arith, length-erase_p xs x)
