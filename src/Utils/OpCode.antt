-- ===== src/Utils/OpCode.antt =====
-- The message codes of utils/src/utils/serializacion.h (`op_code`), with the `int` that travels for
-- each: C numbers the constants of an enumeration from 0.
use tp_sistemas_operativos.Base.{
  ℕ, ◌≤◌, ◌≡◌, arith, refl, Option, none, some, List, [], ◌∷◌, get_elem?,
}

pub data OpCode : Type 0 where
  mensaje paquete creacion_de_proceso confirmacion_proceso_creado : OpCode
  no_se_encontro_un_hueco_libre obtener_contexto_de_ejecucion : OpCode
  respuesta_contexto_de_ejecucion obtener_instruccion respuesta_instruccion read_mem : OpCode
  respuesta_lectura write_mem respuesta_escritura finalizacion_de_proceso creacion_de_hilo : OpCode
  respuesta_creacion_de_hilo finalizacion_de_hilo respuesta_finalizacion_de_hilo : OpCode
  memory_dump creacion_de_archivos respuesta_creacion_de_archivos respuesta_memory_dump : OpCode
  dump_memory_ok dump_memory_oknt set sum sub jnz log_registro dump_memory io : OpCode
  process_create thread_create thread_join thread_cancel mutex_create mutex_lock : OpCode
  mutex_unlock thread_exit process_exit desalojo actualizar_contexto_de_ejecucion ok : OpCode
  fin_de_quantum interrupcion_kernel segmentation_fault syscall contexto_actualizado : OpCode

-- The value of each constant.
unfoldable pub valor : OpCode → ℕ
valor mensaje = 0
valor paquete = 1
valor creacion_de_proceso = 2
valor confirmacion_proceso_creado = 3
valor no_se_encontro_un_hueco_libre = 4
valor obtener_contexto_de_ejecucion = 5
valor respuesta_contexto_de_ejecucion = 6
valor obtener_instruccion = 7
valor respuesta_instruccion = 8
valor read_mem = 9
valor respuesta_lectura = 10
valor write_mem = 11
valor respuesta_escritura = 12
valor finalizacion_de_proceso = 13
valor creacion_de_hilo = 14
valor respuesta_creacion_de_hilo = 15
valor finalizacion_de_hilo = 16
valor respuesta_finalizacion_de_hilo = 17
valor memory_dump = 18
valor creacion_de_archivos = 19
valor respuesta_creacion_de_archivos = 20
valor respuesta_memory_dump = 21
valor dump_memory_ok = 22
valor dump_memory_oknt = 23
valor set = 24
valor sum = 25
valor sub = 26
valor jnz = 27
valor log_registro = 28
valor dump_memory = 29
valor io = 30
valor process_create = 31
valor thread_create = 32
valor thread_join = 33
valor thread_cancel = 34
valor mutex_create = 35
valor mutex_lock = 36
valor mutex_unlock = 37
valor thread_exit = 38
valor process_exit = 39
valor desalojo = 40
valor actualizar_contexto_de_ejecucion = 41
valor ok = 42
valor fin_de_quantum = 43
valor interrupcion_kernel = 44
valor segmentation_fault = 45
valor syscall = 46
valor contexto_actualizado = 47

pub valor_bound : (o : OpCode) → valor o ≤ 47
unfolding valor
valor_bound mensaje = omega arith
valor_bound paquete = omega arith
valor_bound creacion_de_proceso = omega arith
valor_bound confirmacion_proceso_creado = omega arith
valor_bound no_se_encontro_un_hueco_libre = omega arith
valor_bound obtener_contexto_de_ejecucion = omega arith
valor_bound respuesta_contexto_de_ejecucion = omega arith
valor_bound obtener_instruccion = omega arith
valor_bound respuesta_instruccion = omega arith
valor_bound read_mem = omega arith
valor_bound respuesta_lectura = omega arith
valor_bound write_mem = omega arith
valor_bound respuesta_escritura = omega arith
valor_bound finalizacion_de_proceso = omega arith
valor_bound creacion_de_hilo = omega arith
valor_bound respuesta_creacion_de_hilo = omega arith
valor_bound finalizacion_de_hilo = omega arith
valor_bound respuesta_finalizacion_de_hilo = omega arith
valor_bound memory_dump = omega arith
valor_bound creacion_de_archivos = omega arith
valor_bound respuesta_creacion_de_archivos = omega arith
valor_bound respuesta_memory_dump = omega arith
valor_bound dump_memory_ok = omega arith
valor_bound dump_memory_oknt = omega arith
valor_bound set = omega arith
valor_bound sum = omega arith
valor_bound sub = omega arith
valor_bound jnz = omega arith
valor_bound log_registro = omega arith
valor_bound dump_memory = omega arith
valor_bound io = omega arith
valor_bound process_create = omega arith
valor_bound thread_create = omega arith
valor_bound thread_join = omega arith
valor_bound thread_cancel = omega arith
valor_bound mutex_create = omega arith
valor_bound mutex_lock = omega arith
valor_bound mutex_unlock = omega arith
valor_bound thread_exit = omega arith
valor_bound process_exit = omega arith
valor_bound desalojo = omega arith
valor_bound actualizar_contexto_de_ejecucion = omega arith
valor_bound ok = omega arith
valor_bound fin_de_quantum = omega arith
valor_bound interrupcion_kernel = omega arith
valor_bound segmentation_fault = omega arith
valor_bound syscall = omega arith
valor_bound contexto_actualizado = omega arith

-- The constants in the order of their declaration.
abbrev pub constantes : List OpCode
constantes =
    mensaje ∷ paquete ∷ creacion_de_proceso ∷ confirmacion_proceso_creado
    ∷ no_se_encontro_un_hueco_libre ∷ obtener_contexto_de_ejecucion
    ∷ respuesta_contexto_de_ejecucion ∷ obtener_instruccion ∷ respuesta_instruccion ∷ read_mem
    ∷ respuesta_lectura ∷ write_mem ∷ respuesta_escritura ∷ finalizacion_de_proceso
    ∷ creacion_de_hilo ∷ respuesta_creacion_de_hilo ∷ finalizacion_de_hilo
    ∷ respuesta_finalizacion_de_hilo ∷ memory_dump ∷ creacion_de_archivos
    ∷ respuesta_creacion_de_archivos ∷ respuesta_memory_dump ∷ dump_memory_ok ∷ dump_memory_oknt
    ∷ set ∷ sum ∷ sub ∷ jnz ∷ log_registro ∷ dump_memory ∷ io ∷ process_create ∷ thread_create
    ∷ thread_join ∷ thread_cancel ∷ mutex_create ∷ mutex_lock ∷ mutex_unlock ∷ thread_exit
    ∷ process_exit ∷ desalojo ∷ actualizar_contexto_de_ejecucion ∷ ok ∷ fin_de_quantum
    ∷ interrupcion_kernel ∷ segmentation_fault ∷ syscall ∷ contexto_actualizado ∷ []

-- The constant that a received `int` is, where it is one.
unfoldable pub de_valor : ℕ → Option OpCode
de_valor n = get_elem? constantes n

-- What a `switch` on a received code sees: -1, which is no constant, where the peer has closed.
abbrev pub constante : Option ℕ → Option OpCode
constante none = none
constante (some n) = de_valor n

-- The constant that a receiver sees for the number of a message code is that code, for all of them.
pub de_valor-valor : (o : OpCode) → de_valor (valor o) ≡ some o
unfolding de_valor valor
de_valor-valor mensaje = refl
de_valor-valor paquete = refl
de_valor-valor creacion_de_proceso = refl
de_valor-valor confirmacion_proceso_creado = refl
de_valor-valor no_se_encontro_un_hueco_libre = refl
de_valor-valor obtener_contexto_de_ejecucion = refl
de_valor-valor respuesta_contexto_de_ejecucion = refl
de_valor-valor obtener_instruccion = refl
de_valor-valor respuesta_instruccion = refl
de_valor-valor read_mem = refl
de_valor-valor respuesta_lectura = refl
de_valor-valor write_mem = refl
de_valor-valor respuesta_escritura = refl
de_valor-valor finalizacion_de_proceso = refl
de_valor-valor creacion_de_hilo = refl
de_valor-valor respuesta_creacion_de_hilo = refl
de_valor-valor finalizacion_de_hilo = refl
de_valor-valor respuesta_finalizacion_de_hilo = refl
de_valor-valor memory_dump = refl
de_valor-valor creacion_de_archivos = refl
de_valor-valor respuesta_creacion_de_archivos = refl
de_valor-valor respuesta_memory_dump = refl
de_valor-valor dump_memory_ok = refl
de_valor-valor dump_memory_oknt = refl
de_valor-valor set = refl
de_valor-valor sum = refl
de_valor-valor sub = refl
de_valor-valor jnz = refl
de_valor-valor log_registro = refl
de_valor-valor dump_memory = refl
de_valor-valor io = refl
de_valor-valor process_create = refl
de_valor-valor thread_create = refl
de_valor-valor thread_join = refl
de_valor-valor thread_cancel = refl
de_valor-valor mutex_create = refl
de_valor-valor mutex_lock = refl
de_valor-valor mutex_unlock = refl
de_valor-valor thread_exit = refl
de_valor-valor process_exit = refl
de_valor-valor desalojo = refl
de_valor-valor actualizar_contexto_de_ejecucion = refl
de_valor-valor ok = refl
de_valor-valor fin_de_quantum = refl
de_valor-valor interrupcion_kernel = refl
de_valor-valor segmentation_fault = refl
de_valor-valor syscall = refl
de_valor-valor contexto_actualizado = refl
