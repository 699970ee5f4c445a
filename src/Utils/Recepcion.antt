-- ===== src/Utils/Recepcion.antt =====
-- utils/src/utils/serializacion.c and desserializar.c, the receiver. A socket is the list of the
-- bytes that are still to arrive before the peer closes; `recv` with MSG_WAITALL takes all that it
-- asks for. A buffer with a displacement is the list of the bytes from there on.
use tp_sistemas_operativos.Base.{ℕ, Option, none, some, List, [], ◌∷◌, ◌==◌, ltb, if◌then◌else◌}
use tp_sistemas_operativos.Base.Resultado.{Resultado, ok, falla, ◌>>=◌}
use tp_sistemas_operativos.Utils.Bytes.{leer_entero, leer_bytes}

-- A read from a socket or a buffer: the value and the bytes that are left.
abbrev pub Lector : Type 0 → Type 0
Lector A = List ℕ → Resultado (A × List ℕ)

-- `none` is the -1 of a peer that has closed. A code cut short leaves `cod_op` half written.
unfoldable pub recibir_operacion : Lector (Option ℕ)
recibir_operacion [] = ok (none, [])
recibir_operacion (b ∷ bs) = do (n, resto) ← leer_entero (b ∷ bs); ok (some n, resto)

-- The size, then that many bytes; a size that is negative as an `int` can not be allocated.
unfoldable pub recibir_buffer2 : Lector (List ℕ)
recibir_buffer2 socket = do
  (size, resto) ← leer_entero socket
  if ltb size 2147483648 then leer_bytes size resto else falla

-- `deserializar_int` and `deserializar_uint32`: the number at the displacement.
unfoldable pub deserializar_int : Lector ℕ
deserializar_int buffer = leer_entero buffer

-- `memcpy` of a block at the displacement.
unfoldable pub deserializar_bloque : ℕ → Lector (List ℕ)
deserializar_bloque tamanio buffer = leer_bytes tamanio buffer

unfoldable pub recibir_un_entero : Lector ℕ
unfolding recibir_buffer2 deserializar_int
recibir_un_entero socket = do
  (buffer, resto) ← recibir_buffer2 socket
  (pid, b1) ← deserializar_int buffer
  ok (pid, resto)

unfoldable pub recibir_dos_enteros : Lector (ℕ × ℕ)
unfolding recibir_buffer2 deserializar_int
recibir_dos_enteros socket = do
  (buffer, resto) ← recibir_buffer2 socket
  (pid, b1) ← deserializar_int buffer
  (tid, b2) ← deserializar_int b1
  ok ((pid, tid), resto)

unfoldable pub recibir_tres_enteros : Lector (ℕ × ℕ × ℕ)
unfolding recibir_buffer2 deserializar_int
recibir_tres_enteros socket = do
  (buffer, resto) ← recibir_buffer2 socket
  (pid, b1) ← deserializar_int buffer
  (hilo, b2) ← deserializar_int b1
  (program_counter, b3) ← deserializar_int b2
  ok ((pid, hilo, program_counter), resto)

unfoldable pub recibir_cuatro_enteros : Lector (ℕ × ℕ × ℕ × ℕ)
unfolding recibir_buffer2 deserializar_int
recibir_cuatro_enteros socket = do
  (buffer, resto) ← recibir_buffer2 socket
  (pid, b1) ← deserializar_int buffer
  (tid, b2) ← deserializar_int b1
  (direccion_fisica, b3) ← deserializar_int b2
  (valor, b4) ← deserializar_int b3
  ok ((pid, tid, direccion_fisica, valor), resto)

unfoldable pub recibir_una_cadena_y_un_entero : Lector (List ℕ × ℕ)
unfolding recibir_buffer2 deserializar_int deserializar_bloque
recibir_una_cadena_y_un_entero socket = do
  (buffer, resto) ← recibir_buffer2 socket
  (tamanio_cadena, b1) ← deserializar_int buffer
  (valor, b2) ← deserializar_bloque tamanio_cadena b1
  (entero, b3) ← deserializar_int b2
  ok ((valor, entero), resto)

unfoldable pub recibir_enteros_y_valor2 : Lector (ℕ × ℕ × List ℕ)
unfolding recibir_buffer2 deserializar_int deserializar_bloque
recibir_enteros_y_valor2 socket = do
  (buffer, resto) ← recibir_buffer2 socket
  (pid, b1) ← deserializar_int buffer
  (tamanio_proceso, b2) ← deserializar_int b1
  (tamanio_cadena, b3) ← deserializar_int b2
  (valor, b4) ← deserializar_bloque tamanio_cadena b3
  ok ((pid, tamanio_proceso, valor), resto)

unfoldable pub recibir_una_cadena : Lector (List ℕ)
unfolding recibir_buffer2 deserializar_int deserializar_bloque
recibir_una_cadena socket = do
  (buffer, resto) ← recibir_buffer2 socket
  (tamanio_cadena, b1) ← deserializar_int buffer
  (valor, b2) ← deserializar_bloque tamanio_cadena b1
  ok (valor, resto)

-- The string, and the block of `tamanio` bytes behind it.
unfoldable pub recibir_dos_cadenas : Lector (List ℕ × ℕ × List ℕ)
unfolding recibir_buffer2 deserializar_int deserializar_bloque
recibir_dos_cadenas socket = do
  (buffer, resto) ← recibir_buffer2 socket
  (tamanio_cadena, b1) ← deserializar_int buffer
  (valor, b2) ← deserializar_bloque tamanio_cadena b1
  (tamanio, b3) ← deserializar_int b2
  (datos, b4) ← deserializar_bloque tamanio b3
  ok ((valor, tamanio, datos), resto)

-- The C string at the start of a block: what stands before its NUL. A block with none is a fault.
unfoldable pub cadena_c : List ℕ → Resultado (List ℕ)
cadena_c [] = falla
cadena_c (x ∷ xs) =
    let cola = cadena_c xs in if x == 0 then ok [] else (do resto ← cola; ok (x ∷ resto))
