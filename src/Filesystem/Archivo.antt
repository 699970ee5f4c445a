-- ===== src/Filesystem/Archivo.antt =====
-- filesystem/src/mainFS.c: the creation of a file, from the bytes of the request to those of the
-- answer. `archivo_de_bloques` is the list of the bytes of the mapped file of blocks; the metadata
-- files are the list of what is saved in each, the last one first.
use tp_sistemas_operativos.Base.{
  ℕ, zero, suc, ◌+◌, ◌/◌, ◌%◌, not, Option, none, some, List, ◌∷◌, ◌++◌, ◌&&◌, codes, leb, ◌==◌,
  add32, sub32, mul32, length, take, drop, if◌then◌else◌,
}
use tp_sistemas_operativos.Base.Resultado.{Resultado, ok, salir, falla, ◌>>=◌, deref}
use tp_sistemas_operativos.Commons.{Listas}
use tp_sistemas_operativos.Filesystem.Bitmap.{Bitarrays, hay_espacio_disponible, reservar_bloques}
use tp_sistemas_operativos.Utils.Bytes.{bytes_de}
use tp_sistemas_operativos.Utils.OpCode.{OpCode, valor}
use tp_sistemas_operativos.Utils.Paquete.{enviar_respuesta}
use tp_sistemas_operativos.Utils.Recepcion.{recibir_operacion, recibir_dos_cadenas, cadena_c}

-- What `crear_el_archivo_de_metadata` saves, under the name of the file.
pub record Metadata : Type 0 where
  pub nombre : List ℕ
  pub size : ℕ
  pub index_block : ℕ

pub record Disco (B : Type 0) : Type 0 where
  pub bitmap_del_fs : B
  pub archivo_de_bloques : List ℕ
  pub metadata : List Metadata

-- `memcpy` of `tamanio` bytes of the source to a position; a fault past the end of either.
unfoldable pub copiar : List ℕ → ℕ → List ℕ → ℕ → Resultado (List ℕ)
copiar archivo posicion fuente tamanio =
    if leb (posicion + tamanio) (length archivo) && leb tamanio (length fuente)
    then ok (take posicion archivo ++ (take tamanio fuente ++ drop (posicion + tamanio) archivo))
    else falla

module _ (c : Listas) (a : Bitarrays) (block_size : ℕ) where
  open c use {list_get}
  open a use {Bitarray}

  -- The loop that writes the numbers of the data blocks into the index block, from the `i`-th on.
  unfoldable pub escribir_punteros : List ℕ → List ℕ → ℕ → ℕ → ℕ → Resultado (List ℕ)
  escribir_punteros archivo lista_de_bloques posicion i zero = ok archivo
  escribir_punteros archivo lista_de_bloques posicion i (suc quedan) = do
    bloque_de_datos ← deref (list_get lista_de_bloques (i + 1))
    archivo' ← copiar archivo posicion (bytes_de bloque_de_datos) 4
    escribir_punteros archivo' lista_de_bloques (add32 posicion 4) (i + 1) quedan

  -- The loop that writes the content, one block after the other.
  unfoldable pub escribir_datos : List ℕ → List ℕ → List ℕ → ℕ → ℕ → ℕ → Resultado (List ℕ)
  escribir_datos archivo lista_de_bloques contenido puntero i zero = ok archivo
  escribir_datos archivo lista_de_bloques contenido puntero i (suc quedan) = do
    bloque_datos ← deref (list_get lista_de_bloques (i + 1))
    archivo' ← copiar archivo (mul32 bloque_datos block_size) (drop puntero contenido) block_size
    escribir_datos archivo' lista_de_bloques contenido (add32 puntero block_size) (i + 1) quedan

  -- What `crear_archivo` writes into the blocks, by their number.
  unfoldable pub escribir_bloques : List ℕ → List ℕ → ℕ → ℕ → ℕ → List ℕ → Resultado (List ℕ)
  unfolding copiar escribir_punteros escribir_datos
  escribir_bloques archivo lista_de_bloques posicion_del_indice cantidad tamanio contenido =
      if cantidad == 1
      then (do
        unico_bloque_de_datos ← deref (list_get lista_de_bloques 1)
        archivo' ← copiar archivo posicion_del_indice (bytes_de unico_bloque_de_datos) 4
        copiar archivo' (mul32 unico_bloque_de_datos block_size) contenido tamanio)
      else if leb cantidad (block_size / 4)
      then (do
        archivo' ← escribir_punteros archivo lista_de_bloques posicion_del_indice 0 cantidad
        if tamanio % block_size == 0
            then escribir_datos archivo' lista_de_bloques contenido 0 0 cantidad
            else ok archivo')
      else ok archivo

  unfoldable pub crear_archivo :
      Disco Bitarray → ℕ → ℕ → List ℕ → List ℕ → Resultado (Disco Bitarray)
  unfolding escribir_bloques
  crear_archivo fs cantidad_de_bloques_de_datos tamanio_del_archivo contenido nombre = do
    let (lista_de_bloques, bitmap) =
        reservar_bloques a fs.bitmap_del_fs (add32 cantidad_de_bloques_de_datos 1)
    bloque_de_indice ← deref (list_get lista_de_bloques 0)
    archivo ←
        escribir_bloques fs.archivo_de_bloques lista_de_bloques (mul32 bloque_de_indice block_size)
          cantidad_de_bloques_de_datos tamanio_del_archivo contenido
    ok (record {
      bitmap_del_fs = bitmap;
      archivo_de_bloques = archivo;
      metadata =
          record { nombre = nombre; size = tamanio_del_archivo; index_block = bloque_de_indice }
          ∷ fs.metadata;
    })

  -- The state, and the bytes of the answer. A division by a block size of 0 is a fault.
  unfoldable pub creacion_de_archivos :
      Disco Bitarray → ℕ → List ℕ → List ℕ → Resultado (Disco Bitarray × List ℕ)
  unfolding crear_archivo
  creacion_de_archivos fs tamanio_del_archivo contenido nombre =
      if block_size == 0 then falla else (do
        let cantidad = add32 1 (sub32 tamanio_del_archivo 1 / block_size)
        if not (hay_espacio_disponible a fs.bitmap_del_fs (add32 cantidad 1))
            then ok (fs, enviar_respuesta (codes "ERROR") OpCode.respuesta_creacion_de_archivos)
            else (do
              fs' ← crear_archivo fs cantidad tamanio_del_archivo contenido nombre
              ok (fs', enviar_respuesta (codes "OK") OpCode.respuesta_creacion_de_archivos)))

  -- `assert(recibir_operacion(...) == CREACION_DE_ARCHIVOS)`, and the rest.
  unfoldable pub atender_pedido :
      Disco Bitarray → Option ℕ → List ℕ → Resultado (Disco Bitarray × List ℕ)
  unfolding creacion_de_archivos
  atender_pedido fs none s = salir
  atender_pedido fs (some n) s =
      if n == valor OpCode.creacion_de_archivos
      then (do
        ((bytes_del_nombre, tamanio, contenido), s') ← recibir_dos_cadenas s
        nombre ← cadena_c bytes_del_nombre
        creacion_de_archivos fs tamanio contenido nombre)
      else salir

  -- `atender_cliente`
  unfoldable pub atender_memoria : Disco Bitarray → List ℕ → Resultado (Disco Bitarray × List ℕ)
  unfolding atender_pedido
  atender_memoria fs socket = do (codigo, s) ← recibir_operacion socket; atender_pedido fs codigo s
