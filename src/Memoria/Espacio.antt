-- ===== src/Memoria/Espacio.antt =====
-- Reads and writes of the memory's bytes.
use tp_sistemas_operativos.Base.{
  ℕ, ◌+◌, ◌-◌, ◌≤◌, ◌<◌, ◌≡◌, ◌∙◌, refl, sym, ap, ◌⊎◌, inl, inr, List, [], ◌++◌, arith, le→leb,
  length, take, drop, length-append, length-take_le, take-append-drop, take-drop-append,
  drop-append_ge, append_assoc, append-nil, u32_mod,
}
use tp_sistemas_operativos.Base.Resultado.{ok}
use tp_sistemas_operativos.Memoria.Procesos.{Memoria, leer_memoria, escribir_memoria}
use tp_sistemas_operativos.Memoria.Cpu.{read_mem, write_mem}
use tp_sistemas_operativos.Utils.Bytes.{
  bytes_de, length-bytes_de, leer_entero-bytes_de, take-append, drop-append,
}

-- The list with a block laid over it.
abbrev pub sobre : List ℕ → ℕ → List ℕ → List ℕ
sobre xs d bs = take d xs ++ (bs ++ drop (d + length bs) xs)

module _ (xs bs : List ℕ) (d : ℕ) (cabe : d + length bs ≤ length xs) where
  pub length-sobre : length (sobre xs d bs) ≡ length xs
  length-sobre = omega (
    arith,
    length-append (take d xs) (bs ++ drop (d + length bs) xs),
    length-append bs (drop (d + length bs) xs),
    length-take_le d xs (omega arith),
    ap (length {A = ℕ}) (take-append-drop (d + length bs) xs),
    length-append (take (d + length bs) xs) (drop (d + length bs) xs),
    length-take_le (d + length bs) xs cabe,
  )

  -- The block itself.
  pub leer-sobre : take (length bs) (drop d (sobre xs d bs)) ≡ bs
  leer-sobre =
      ap (λ (k : ℕ). take (length bs) (drop k (sobre xs d bs)))
        (sym (length-take_le d xs (omega arith)))
      ∙ rw (drop-append (take d xs) (bs ++ drop (d + length bs) xs))
          (take-append bs (drop (d + length bs) xs))

  -- What lies before or behind it.
  pub leer-sobre_ne :
      (n e : ℕ)
      → ((e + n ≤ d) ⊎ (d + length bs ≤ e))
      → take n (drop e (sobre xs d bs)) ≡ take n (drop e xs)
  leer-sobre_ne n e (inl antes) =
      take-drop-append n e (take d xs) _ (rw (length-take_le d xs (omega arith)) antes)
      ∙ sym (
          take-drop-append n e (take d xs) (drop d xs)
            (rw (length-take_le d xs (omega arith)) antes))
      ∙ ap (λ (ys : List ℕ). take n (drop e ys)) (take-append-drop d xs)
  leer-sobre_ne n e (inr despues) = ap (take n) (
      ap (drop e) (sym (append_assoc (take d xs) bs (drop (d + length bs) xs)))
      ∙ drop-append_ge e (take d xs ++ bs) (drop (d + length bs) xs) (rw delante despues)
      ∙ ap (λ (k : ℕ). drop (e - k) (drop (d + length bs) xs)) delante
      ∙ ap (λ (k : ℕ). drop (e - k) (drop (d + length bs) xs))
          (sym (length-take_le (d + length bs) xs cabe))
      ∙ sym (
          drop-append_ge e (take (d + length bs) xs) (drop (d + length bs) xs)
            (rw (length-take_le (d + length bs) xs cabe) despues))
      ∙ ap (drop e) (take-append-drop (d + length bs) xs))
    where
      delante : length (take d xs ++ bs) ≡ d + length bs
      delante = omega (arith, length-append (take d xs) bs, length-take_le d xs (omega arith))

-- The write succeeds exactly where the four bytes lie in the memory.
escribir_memoria-bytes_de :
    (xs : List ℕ) (d v : ℕ)
    → d + 4 ≤ length xs
    → escribir_memoria xs d (bytes_de v) 4 ≡ ok (sobre xs d (bytes_de v))
unfolding escribir_memoria bytes_de
escribir_memoria-bytes_de xs d v cabe = rw (le→leb (d + 4) (length xs) cabe)

leer_memoria-ok :
    (xs : List ℕ) (d n : ℕ) → d + n ≤ length xs → leer_memoria xs d n ≡ ok (take n (drop d xs))
unfolding leer_memoria
leer_memoria-ok xs d n cabe = rw (le→leb (d + n) (length xs) cabe)

module _ (m : Memoria) (d v : ℕ) (cabe : d + 4 ≤ length m.espacio) where
  abbrev escrita : Memoria
  escrita = record m { espacio = sobre m.espacio d (bytes_de v) }

  write_mem-ok : write_mem m d v ≡ ok escrita
  unfolding write_mem
  write_mem-ok = rw (escribir_memoria-bytes_de m.espacio d v cabe)

  length-escrita : length escrita.espacio ≡ length m.espacio
  length-escrita = length-sobre m.espacio (bytes_de v) d (rw (length-bytes_de v) cabe)

  read_mem-escrita : v < u32_mod → read_mem escrita d ≡ ok v
  unfolding read_mem
  read_mem-escrita h =
      rw (leer_memoria-ok escrita.espacio d 4 (rw length-escrita cabe), bloque)
        (rw (sym (append-nil (bytes_de v))) (rw (leer_entero-bytes_de v [] h)))
    where
      bloque : take 4 (drop d escrita.espacio) ≡ bytes_de v
      bloque =
          ap (λ (k : ℕ). take k (drop d escrita.espacio)) (sym (length-bytes_de v))
          ∙ leer-sobre m.espacio (bytes_de v) d (rw (length-bytes_de v) cabe)

  read_mem-escrita_ne : (e : ℕ) → ((e + 4 ≤ d) ⊎ (d + 4 ≤ e)) → read_mem escrita e ≡ read_mem m e
  unfolding read_mem leer_memoria
  read_mem-escrita_ne e lejos = rw (
    length-escrita,
    leer-sobre_ne m.espacio (bytes_de v) d (rw (length-bytes_de v) cabe) 4 e
        (rw (length-bytes_de v) lejos),
  )

-- WRITE_MEM of a 32-bit word inside the memory succeeds; READ_MEM then gives that word back, words
-- that do not overlap it read as before, and holes and processes stay.
pub write_mem-read_mem :
    (m : Memoria) (d v : ℕ)
    → v < u32_mod
    → d + 4 ≤ length m.espacio
    → (m' : Memoria) × (write_mem m d v ≡ ok m')
      × (read_mem m' d ≡ ok v)
      × ((e : ℕ) → ((e + 4 ≤ d) ⊎ (d + 4 ≤ e)) → read_mem m' e ≡ read_mem m e)
      × (m'.huecos_libres ≡ m.huecos_libres)
      × (m'.lista_de_procesos ≡ m.lista_de_procesos)
write_mem-read_mem m d v h cabe = (
  escrita m d v cabe,
  write_mem-ok m d v cabe,
  read_mem-escrita m d v cabe h,
  read_mem-escrita_ne m d v cabe,
  refl,
  refl,
)
