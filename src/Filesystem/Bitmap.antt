-- ===== src/Filesystem/Bitmap.antt =====
-- filesystem/src/mainFS.c: the bitmap and the search for free blocks. The bit array is that of
-- commons/bitarray.h, a parameter with the laws of its documentation. A loop over the bits goes on
-- the number of those that are left.
use tp_sistemas_operativos.Base.{
  ℕ, zero, suc, ◌+◌, ◌/◌, ◌%◌, ◌<◌, ◌≡◌, ◌≢◌, Bool, true, false, not, ◌&&◌, List, [], ◌∷◌, ◌==◌,
  add32, if◌then◌else◌,
}

pub record Bitarrays : Type 1 where
  pub Bitarray : Type 0
  pub get_max_bit : Bitarray → ℕ
  pub test_bit : Bitarray → ℕ → Bool
  pub set_bit : Bitarray → ℕ → Bitarray
  pub get_max_bit-set_bit : (b : Bitarray) (i : ℕ) → get_max_bit (set_bit b i) ≡ get_max_bit b
  pub test_bit-set_bit :
      (b : Bitarray) (i : ℕ) → i < get_max_bit b → test_bit (set_bit b i) i ≡ true
  pub test_bit-set_bit_ne :
      (b : Bitarray) (i j : ℕ) → j ≢ i → test_bit (set_bit b i) j ≡ test_bit b j

unfoldable pub obtener_tamanio_del_bitmap : ℕ → ℕ
obtener_tamanio_del_bitmap block_coun =
    if block_coun % 8 == 0 then block_coun / 8 else block_coun / 8 + 1

module _ (a : Bitarrays) where
  open a use {Bitarray, get_max_bit, test_bit, set_bit}

  -- The loop of `hay_espacio_disponible` from bit `i`, with the free bits counted so far.
  unfoldable pub hay_desde : Bitarray → ℕ → ℕ → ℕ → ℕ → Bool
  hay_desde b necesarios i zero libres = false
  hay_desde b necesarios i (suc quedan) libres =
      let ocupado = test_bit b i in
      let rest =
        hay_desde b necesarios (suc i) quedan (if ocupado then libres else add32 libres 1) in
      if not ocupado && (necesarios == add32 libres 1) then true else rest

  unfoldable pub hay_espacio_disponible : Bitarray → ℕ → Bool
  unfolding hay_desde
  hay_espacio_disponible b necesarios = hay_desde b necesarios 0 (get_max_bit b) 0

  -- The loop of `cantidad_de_bloques_libres` from bit `i`.
  unfoldable pub libres_desde : Bitarray → ℕ → ℕ → ℕ
  libres_desde b i zero = 0
  libres_desde b i (suc quedan) =
      let rest = libres_desde b (suc i) quedan in if test_bit b i then rest else suc rest

  unfoldable pub cantidad_de_bloques_libres : Bitarray → ℕ
  unfolding libres_desde
  cantidad_de_bloques_libres b = libres_desde b 0 (get_max_bit b)

  -- The loop of `reservar_el_bloque_de_indice_y_los_bloques_de_datos` from bit `i`: the free blocks
  -- that it adds to the list, and whether they came to be as many as are needed.
  unfoldable pub bloques_desde : Bitarray → ℕ → ℕ → ℕ → ℕ → List ℕ × Bool
  bloques_desde b necesarios i zero contador = ([], false)
  bloques_desde b necesarios i (suc quedan) contador =
      let ocupado = test_bit b i in
      let rest =
        bloques_desde b necesarios (suc i) quedan
          (if ocupado then contador else add32 contador 1) in
      if ocupado
      then rest
      else if add32 contador 1 == necesarios
      then (i ∷ [], true)
      else (i ∷ rest.0, rest.1)

  -- The bits of the blocks, set one after the other.
  unfoldable pub asignar : Bitarray → List ℕ → Bitarray
  asignar b [] = b
  asignar b (i ∷ bloques) = asignar (set_bit b i) bloques

  -- The list of the blocks, and the bitmap after the call.
  unfoldable pub reservar_bloques : Bitarray → ℕ → List ℕ × Bitarray
  unfolding bloques_desde asignar
  reservar_bloques b necesarios =
      let r = bloques_desde b necesarios 0 (get_max_bit b) 0 in
      (r.0, if r.1 then asignar b r.0 else b)
