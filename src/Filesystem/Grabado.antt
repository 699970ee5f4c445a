-- ===== src/Filesystem/Grabado.antt =====
-- What a file of one block leaves in the blocks, filesystem/src/mainFS.c.
use native.Mathlib.Nat.{div-eq_of_lt}
use tp_sistemas_operativos.Base.{
  ℕ, zero, suc, ◌+◌, ◌*◌, ◌≤◌, ◌<◌, ◌≡◌, ◌≢◌, ◌∙◌, refl, sym, ap, inl, inr, true, false, List, [],
  ◌∷◌, arith, le→leb, add32, mul32, u32_mod, length, take, drop, IsSorted, All, Bool-cases, ltb,
  ltb→lt, ◌⊎◌, ◌-◌, ◌==◌, ◌/◌, sub32, subst, codes,
}
use tp_sistemas_operativos.Base.Resultado.{ok}
use tp_sistemas_operativos.Commons.{Listas}
use tp_sistemas_operativos.Filesystem.Archivo.{
  Disco, copiar, escribir_bloques, crear_archivo, creacion_de_archivos,
}
use tp_sistemas_operativos.Filesystem.Bitmap.{Bitarrays, hay_espacio_disponible, reservar_bloques}
use tp_sistemas_operativos.Filesystem.Reserva.{EsLibre, hay_espacio_disponible-reservar_bloques}
use tp_sistemas_operativos.Memoria.Espacio.{sobre, length-sobre, leer-sobre, leer-sobre_ne}
use tp_sistemas_operativos.Utils.Bytes.{bytes_de, length-bytes_de}
use tp_sistemas_operativos.Utils.OpCode.{OpCode}
use tp_sistemas_operativos.Utils.Paquete.{enviar_respuesta}

take_whole {ℓ} : {A : Type ℓ} (xs : List A) (n : ℕ) → length xs ≡ n → take n xs ≡ xs
take_whole [] zero e = refl
take_whole [] (suc n) e = refl
take_whole (x ∷ xs) zero e = absurd (omega arith)
take_whole (x ∷ xs) (suc n) e = ap (◌∷◌ x) (take_whole xs n (omega arith))

-- A copy of a whole block inside the file.
copiar-sobre :
    (archivo fuente : List ℕ) (d n : ℕ)
    → length fuente ≡ n
    → d + n ≤ length archivo
    → copiar archivo d fuente n ≡ ok (sobre archivo d fuente)
unfolding copiar
copiar-sobre archivo fuente d n e cabe = rw (
  le→leb (d + n) (length archivo) cabe,
  le→leb n (length fuente) (omega arith),
  take_whole fuente n e,
  sym e,
)

-- Blocks of `n` bytes do not overlap.
bloque_le : (x y n : ℕ) → x < y → x * n + n ≤ y * n
bloque_le x zero n h = absurd (omega arith)
bloque_le x (suc y) n h = elim (Bool-cases (ltb x y)) [
  | inl e ↦ omega (arith, bloque_le x y n (ltb→lt x y e))
  | inr e ↦ let igual : x ≡ y = ground arith in rw igual (omega arith)
]

div_small : (x n : ℕ) → x < n → x / n ≡ 0
div_small x n h = div-eq_of_lt h

dos_elementos : (xs : List ℕ) → length xs ≡ 2 → (i : ℕ) × (d : ℕ) × (xs ≡ i ∷ d ∷ [])
dos_elementos [] e = absurd (omega arith)
dos_elementos (i ∷ []) e = absurd (omega arith)
dos_elementos (i ∷ d ∷ []) e = (i, d, refl)
dos_elementos (i ∷ d ∷ x ∷ xs) e = absurd (omega arith)

module _ (c : Listas) (a : Bitarrays) (block_size : ℕ) (archivo contenido : List ℕ) (i d max : ℕ)
    (orden : i < d) (dentro : d < max) (entra : max * block_size ≤ length archivo)
    (corto : length archivo < u32_mod) (puntero : 4 ≤ block_size)
    (cabe : length contenido ≤ block_size) where
  abbrev con_indice : List ℕ
  con_indice = sobre archivo (i * block_size) (bytes_de d)

  abbrev pub grabado : List ℕ
  grabado = sobre con_indice (d * block_size) contenido

  indice_cabe : i * block_size + length (bytes_de d) ≤ length archivo
  indice_cabe =
      omega (
        arith,
        length-bytes_de d,
        bloque_le i d block_size orden,
        bloque_le d max block_size dentro,
      )

  length-con_indice : length con_indice ≡ length archivo
  length-con_indice = length-sobre archivo (bytes_de d) (i * block_size) indice_cabe

  datos_caben : d * block_size + length contenido ≤ length con_indice
  datos_caben = omega (arith, length-con_indice, bloque_le d max block_size dentro)

  pub escribir_bloques-grabado :
      escribir_bloques c a block_size archivo
        (i ∷ d ∷ [])
        (mul32 i block_size)
        1
        (length contenido)
        contenido
      ≡ ok grabado
  unfolding escribir_bloques
  escribir_bloques-grabado =
      let mi : mul32 i block_size ≡ i * block_size = omega (arith, indice_cabe, corto) in
      let md : mul32 d block_size ≡ d * block_size =
        omega (arith, bloque_le d max block_size dentro, entra, corto) in
      rw (
        c.list_get_lem (i ∷ d ∷ []) 1,
        mi,
        copiar-sobre archivo (bytes_de d) (i * block_size) 4 (length-bytes_de d)
            (omega (arith, indice_cabe, length-bytes_de d)),
        md,
        copiar-sobre con_indice contenido (d * block_size) (length contenido) refl datos_caben,
      )

  -- The content in the data block, the number of that block in the index block, and every other
  -- block as it was.
  pub leer-grabado :
      (take 4 (drop (i * block_size) grabado) ≡ bytes_de d)
      × (take (length contenido) (drop (d * block_size) grabado) ≡ contenido)
      × ((j : ℕ)
          → j ≢ i
          → j ≢ d
          → take block_size (drop (j * block_size) grabado)
            ≡ take block_size (drop (j * block_size) archivo))
  leer-grabado = (
    leer-sobre_ne con_indice contenido (d * block_size) datos_caben 4 (i * block_size)
          (inl (omega (arith, bloque_le i d block_size orden)))
        ∙ ap (λ (k : ℕ). take k (drop (i * block_size) con_indice)) (sym (length-bytes_de d))
        ∙ leer-sobre archivo (bytes_de d) (i * block_size) indice_cabe,
    leer-sobre con_indice contenido (d * block_size) datos_caben,
    λ j ni nd.
        leer-sobre_ne con_indice contenido (d * block_size) datos_caben block_size (j * block_size)
          (aparte j d (length contenido) cabe nd)
        ∙ leer-sobre_ne archivo (bytes_de d) (i * block_size) indice_cabe block_size
            (j * block_size)
            (aparte j i (length (bytes_de d)) (omega (arith, length-bytes_de d, puntero)) ni),
  )
    where
      aparte :
          (j x n : ℕ)
          → n ≤ block_size
          → j ≢ x
          → (j * block_size + block_size ≤ x * block_size) ⊎ (x * block_size + n ≤ j * block_size)
      aparte j x n h ne = elim (Bool-cases (ltb j x)) [
        | inl e ↦ inl (bloque_le j x block_size (ltb→lt j x e))
        | inr e ↦
            let mayor : x < j = ground arith in
            inr (omega (arith, h, bloque_le x j block_size mayor))
      ]

-- A file of 1 to `block_size` bytes, on a disk of fewer than 2 ^ 32 bytes with room for every block
-- of the bitmap, blocks of 4 bytes or more, and two free blocks: the request is answered with OK; the
-- metadata names an index block; that block starts with the number of a data block, which starts with
-- the content; both blocks were free, they differ, and every other block is as before.
pub creacion_de_archivos-un_bloque :
    (c : Listas) (a : Bitarrays) (block_size : ℕ) (fs : Disco a.Bitarray)
    (contenido nombre : List ℕ)
    → 4 ≤ block_size
    → 0 < length contenido
    → length contenido ≤ block_size
    → a.get_max_bit fs.bitmap_del_fs * block_size ≤ length fs.archivo_de_bloques
    → length fs.archivo_de_bloques < u32_mod
    → hay_espacio_disponible a fs.bitmap_del_fs 2 ≡ true
    → (fs' : Disco a.Bitarray) × (indice : ℕ) × (dato : ℕ) × (creacion_de_archivos c a block_size fs
          (length contenido)
          contenido
          nombre
        ≡ ok (fs', enviar_respuesta (codes "OK") OpCode.respuesta_creacion_de_archivos))
      × (fs'.metadata
          ≡ record { nombre = nombre; size = length contenido; index_block = indice } ∷ fs.metadata)
      × (take 4 (drop (indice * block_size) fs'.archivo_de_bloques) ≡ bytes_de dato)
      × (take (length contenido) (drop (dato * block_size) fs'.archivo_de_bloques) ≡ contenido)
      × (a.test_bit fs.bitmap_del_fs indice ≡ false)
      × (a.test_bit fs.bitmap_del_fs dato ≡ false)
      × (indice ≢ dato)
      × ((j : ℕ)
          → j ≢ indice
          → j ≢ dato
          → take block_size (drop (j * block_size) fs'.archivo_de_bloques)
            ≡ take block_size (drop (j * block_size) fs.archivo_de_bloques))
unfolding creacion_de_archivos crear_archivo
creacion_de_archivos-un_bloque c a block_size fs contenido nombre h4 hp hc he hl hay =
    let r = reservar_bloques a fs.bitmap_del_fs 2 in
    let (dos, orden, libres, marca) =
      hay_espacio_disponible-reservar_bloques a fs.bitmap_del_fs 2 (omega arith) (omega arith)
        hay in
    let (i, d, e) = dos_elementos r.0 dos in
    let orden' : IsSorted (λ x y. x < y) (i ∷ d ∷ []) = subst (IsSorted (λ x y. x < y)) e orden in
    let libres' : All (EsLibre a fs.bitmap_del_fs 0 (a.get_max_bit fs.bitmap_del_fs)) (i ∷ d ∷ []) =
      subst (All (EsLibre a fs.bitmap_del_fs 0 (a.get_max_bit fs.bitmap_del_fs))) e libres in
    let max = a.get_max_bit fs.bitmap_del_fs in
    let resta : sub32 (length contenido) 1 ≡ length contenido - 1 =
      omega (arith, hp, hc, hl, he, bloque_le d max block_size libres'.1.0.1) in
    let uno : add32 1 (sub32 (length contenido) 1 / block_size) ≡ 1 =
      rw (resta, div_small (length contenido - 1) block_size (omega (arith, hp, hc))) in
    let distinto_cero : (block_size == 0) ≡ false = ground arith in
    let leido =
      leer-grabado c a block_size fs.archivo_de_bloques contenido i d max orden'.0.0 libres'.1.0.1
        he hl h4 hc in
    (
      record {
        bitmap_del_fs = r.1;
        archivo_de_bloques =
            grabado c a block_size fs.archivo_de_bloques contenido i d max orden'.0.0 libres'.1.0.1
              he hl h4 hc;
        metadata =
            record { nombre = nombre; size = length contenido; index_block = i } ∷ fs.metadata;
      },
      i,
      d,
      rw (
        distinto_cero,
        uno,
        hay,
        e,
        c.list_get_lem (i ∷ d ∷ []) 0,
        escribir_bloques-grabado c a block_size fs.archivo_de_bloques contenido i d max orden'.0.0
            libres'.1.0.1 he hl h4 hc,
      ),
      refl,
      leido.0,
      leido.1,
      libres'.0.2,
      libres'.1.0.2,
      (λ q. omega (arith, orden'.0.0, q)),
      leido.2,
    )
