-- ===== src/Pruebas/DeFilesystem.antt =====
-- The filesystem module on a small disk, with a bit array that meets the laws, and the theorems about
-- it applied there.
use tp_sistemas_operativos.Base.{
  none, ℕ, ◌*◌, ◌<◌, ◌≡◌, ◌≢◌, refl, Bool, true, false, ◌||◌, [], ◌∷◌, arith, codes, ◌==◌, ==_self,
  length, take, drop, replicate, All, IsSorted, if◌then◌else◌,
}
use tp_sistemas_operativos.Base.Resultado.{ok}
use tp_sistemas_operativos.Commons.Referencia.{referencia}
use tp_sistemas_operativos.Filesystem.Archivo.{Disco, creacion_de_archivos, atender_memoria}
use tp_sistemas_operativos.Filesystem.Bitmap.{
  Bitarrays, hay_espacio_disponible, reservar_bloques, obtener_tamanio_del_bitmap,
}
use tp_sistemas_operativos.Filesystem.Grabado.{creacion_de_archivos-un_bloque}
use tp_sistemas_operativos.Filesystem.Pedido.{atender_memoria-pedido_de_volcado}
use tp_sistemas_operativos.Memoria.Kernel.{pedido_de_volcado}
use tp_sistemas_operativos.Memoria.Procesos.{Configuracion}
use tp_sistemas_operativos.Filesystem.Reserva.{
  EsLibre, esta, hay_espacio_disponible-reservar_bloques, hay_espacio_disponible-sin_espacio,
}
use tp_sistemas_operativos.Utils.Bytes.{bytes_de}
use tp_sistemas_operativos.Utils.OpCode.{OpCode}
use tp_sistemas_operativos.Utils.Paquete.{enviar_paquete, enviar_respuesta}

-- The number of bits, and the value of each.
abbrev bitarrays : Bitarrays
bitarrays = record {
  Bitarray = ℕ × (ℕ → Bool);
  get_max_bit = λ b. b.0;
  test_bit = λ b i. b.1 i;
  set_bit = λ b i. (b.0, λ j. if j == i then true else b.1 j);
  get_max_bit-set_bit = λ b i. refl;
  test_bit-set_bit = λ b i h. rw (==_self i);
  test_bit-set_bit_ne = λ b i j ne. ground arith;
}

-- Eight blocks; the even ones are taken.
abbrev bits : ℕ × (ℕ → Bool)
bits = (8, λ j. (j == 0) || ((j == 2) || ((j == 4) || (j == 6))))

abbrev disco : Disco (ℕ × (ℕ → Bool))
disco = record { bitmap_del_fs = bits; archivo_de_bloques = replicate 64 0; metadata = [] }

reservar_tres : (reservar_bloques bitarrays bits 3).0 ≡ 1 ∷ 3 ∷ 5 ∷ []
unfolding reservar_bloques
reservar_tres = refl

-- 10 blocks take 2 bytes, and the bit array then has 16 bits.
tamanio_del_bitmap : obtener_tamanio_del_bitmap 10 ≡ 2
unfolding obtener_tamanio_del_bitmap
tamanio_del_bitmap = refl

alcanza : hay_espacio_disponible bitarrays bits 2 ≡ true
unfolding hay_espacio_disponible
alcanza = refl

no_alcanza : hay_espacio_disponible bitarrays bits 5 ≡ false
unfolding hay_espacio_disponible
no_alcanza = refl

hay_espacio_disponible-reservar_bloques_example :
    (length (reservar_bloques bitarrays bits 2).0 ≡ 2)
    × IsSorted (λ x y. x < y) (reservar_bloques bitarrays bits 2).0
    × All (EsLibre bitarrays bits 0 8) (reservar_bloques bitarrays bits 2).0
    × ((j : ℕ)
        → (reservar_bloques bitarrays bits 2).1.1 j
          ≡ (bits.1 j || esta j (reservar_bloques bitarrays bits 2).0))
hay_espacio_disponible-reservar_bloques_example =
    hay_espacio_disponible-reservar_bloques bitarrays bits 2 (omega arith) (omega arith) alcanza

hay_espacio_disponible-sin_espacio_example : (reservar_bloques bitarrays bits 5).1 ≡ bits
hay_espacio_disponible-sin_espacio_example =
    hay_espacio_disponible-sin_espacio bitarrays bits 5 no_alcanza

creacion_de_archivos-un_bloque_example :
    (fs' : Disco (ℕ × (ℕ → Bool))) × (indice : ℕ) × (dato : ℕ) × (creacion_de_archivos referencia
        bitarrays 8 disco 5
        (9 ∷ 8 ∷ 7 ∷ 6 ∷ 5 ∷ [])
        (codes "d")
      ≡ ok (fs', enviar_respuesta (codes "OK") OpCode.respuesta_creacion_de_archivos))
    × (fs'.metadata ≡ record { nombre = codes "d"; size = 5; index_block = indice } ∷ [])
    × (take 4 (drop (indice * 8) fs'.archivo_de_bloques) ≡ bytes_de dato)
    × (take 5 (drop (dato * 8) fs'.archivo_de_bloques) ≡ 9 ∷ 8 ∷ 7 ∷ 6 ∷ 5 ∷ [])
    × (bits.1 indice ≡ false)
    × (bits.1 dato ≡ false)
    × (indice ≢ dato)
    × ((j : ℕ)
        → j ≢ indice
        → j ≢ dato
        → take 8 (drop (j * 8) fs'.archivo_de_bloques)
          ≡ take 8 (drop (j * 8) disco.archivo_de_bloques))
creacion_de_archivos-un_bloque_example =
    creacion_de_archivos-un_bloque referencia bitarrays 8 disco (9 ∷ 8 ∷ 7 ∷ 6 ∷ 5 ∷ []) (codes "d")
      (omega arith) (omega arith) (omega arith) (omega arith) (omega arith) alcanza

abbrev cfg : Configuracion
cfg = record {
  path_instrucciones = [];
  esquema = codes "FIJAS";
  algoritmo_busqueda = codes "BEST";
  archivos = λ nombre. none;
}

atender_memoria-pedido_de_volcado_example :
    atender_memoria referencia bitarrays 8 disco
      (enviar_paquete (pedido_de_volcado referencia cfg (codes "d") 3 (9 ∷ 8 ∷ 7 ∷ [])))
    ≡ creacion_de_archivos referencia bitarrays 8 disco 3 (9 ∷ 8 ∷ 7 ∷ []) (codes "d")
atender_memoria-pedido_de_volcado_example =
    atender_memoria-pedido_de_volcado referencia cfg bitarrays 8 disco (codes "d") (9 ∷ 8 ∷ 7 ∷ [])
      ((λ e. omega arith), tt) (omega arith)
