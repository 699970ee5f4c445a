-- ===== src/Filesystem/Pedido.antt =====
-- The request of memoria/src/mainMemoria.c (case MEMORY_DUMP) as filesystem/src/mainFS.c receives it.
use tp_sistemas_operativos.Base.{
  ℕ, ◌+◌, ◌<◌, ◌≡◌, ◌≢◌, refl, sym, some, List, [], ◌∷◌, ◌++◌, arith, append-nil, length, All,
}
use tp_sistemas_operativos.Base.Resultado.{ok, >>=-eq-ok}
use tp_sistemas_operativos.Commons.{Listas}
use tp_sistemas_operativos.Filesystem.Archivo.{
  Disco, creacion_de_archivos, atender_pedido, atender_memoria,
}
use tp_sistemas_operativos.Filesystem.Bitmap.{Bitarrays, hay_espacio_disponible}
use tp_sistemas_operativos.Memoria.Kernel.{pedido_de_volcado}
use tp_sistemas_operativos.Memoria.Procesos.{Configuracion}
use tp_sistemas_operativos.Utils.Cadenas.{recibir_dos_cadenas-enviar_paquete}
use tp_sistemas_operativos.Utils.OpCode.{OpCode, valor}
use tp_sistemas_operativos.Utils.Paquete.{con_nul, enviar_paquete}
use tp_sistemas_operativos.Utils.Recepcion.{recibir_operacion, recibir_dos_cadenas, cadena_c}

-- A C string with its NUL is read back up to it.
cadena_c-con_nul : (xs : List ℕ) → All (λ x. x ≢ 0) xs → cadena_c (con_nul xs) ≡ ok xs
unfolding cadena_c
cadena_c-con_nul [] h = refl
cadena_c-con_nul (x ∷ xs) h = rw (cadena_c-con_nul xs h.1) (ground (arith, h.0))

-- The bytes that the memory sends for a dump, with a name without NUL and a name and data that
-- together are shorter than 2 ^ 31 - 9 bytes, make the filesystem do exactly what it does when it is
-- asked to create a file of that name with these data.
pub atender_memoria-pedido_de_volcado :
    (c : Listas) (cfg : Configuracion) (a : Bitarrays) (block_size : ℕ) (fs : Disco a.Bitarray)
    (nombre datos : List ℕ)
    → All (λ x. x ≢ 0) nombre
    → length nombre + length datos + 9 < 2147483648
    → atender_memoria c a block_size fs
        (enviar_paquete (pedido_de_volcado c cfg nombre (length datos) datos))
      ≡ creacion_de_archivos c a block_size fs (length datos) datos nombre
unfolding atender_memoria atender_pedido pedido_de_volcado valor hay_espacio_disponible
atender_memoria-pedido_de_volcado c cfg a block_size fs nombre datos h corta =
    let bytes = enviar_paquete (pedido_de_volcado c cfg nombre (length datos) datos) in
    let llega =
      recibir_dos_cadenas-enviar_paquete OpCode.creacion_de_archivos nombre datos [] corta in
    let ((codigo, s), e1, h1) = >>=-eq-ok (recibir_operacion (bytes ++ [])) _ llega in
    let ((v, resto), e2, h2) = >>=-eq-ok (recibir_dos_cadenas s) _ h1 in
    let mismo : codigo ≡ some (valor OpCode.creacion_de_archivos) = cc in
    let valores : v ≡ (con_nul nombre, length datos, datos) = cc in
    rw (sym (append-nil bytes), e1, mismo, e2, valores, cadena_c-con_nul nombre h)
