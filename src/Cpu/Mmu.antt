-- ===== src/Cpu/Mmu.antt =====
-- cpu/src/mainCPU.c, what the processor says to the memory and to the kernel: the translation of
-- addresses, READ_MEM, WRITE_MEM, and the contexts.
use tp_sistemas_operativos.Base.{
  ℕ, ◌+◌, false, not, Option, none, some, List, [], ◌∷◌, ◌++◌, ltb, ◌==◌, add32, if◌then◌else◌,
}
use tp_sistemas_operativos.Base.Resultado.{Resultado, ok, salir, ◌>>=◌}
use tp_sistemas_operativos.Cpu.Registros.{Cpu, avanzar, buscar_valor_registro, ejecutar_set}
use tp_sistemas_operativos.Utils.Mensajes.{agregar_enteros}
use tp_sistemas_operativos.Utils.OpCode.{OpCode, valor}
use tp_sistemas_operativos.Utils.Paquete.{crear_paquete, enviar_paquete}
use tp_sistemas_operativos.Utils.Recepcion.{
  recibir_operacion, recibir_buffer2, recibir_un_entero, recibir_una_cadena, deserializar_int,
  cadena_c,
}

-- A packet of a code and numbers, as it is sent.
abbrev pub numeros : OpCode → List ℕ → List ℕ
numeros codigo ns = enviar_paquete (agregar_enteros (crear_paquete codigo) ns)

abbrev pub decir_a_memoria : Cpu → List ℕ → Cpu
decir_a_memoria k bytes = record k { a_memoria = k.a_memoria ++ bytes }

abbrev pub decir_al_kernel : Cpu → List ℕ → Cpu
decir_al_kernel k bytes = record k { a_kernel = k.a_kernel ++ bytes }

-- `assert(recibir_operacion(socket_memoria) == codigo)`: the code received and the socket after it.
unfoldable pub esperar : OpCode → Option ℕ → List ℕ → Resultado (List ℕ)
esperar codigo none s = salir
esperar codigo (some n) s = if n == valor codigo then ok s else salir

-- The numbers of the context, in the order of `actualizar_contexto_y_enviar`.
abbrev pub contexto : Cpu → List ℕ
contexto k = k.ax ∷ k.bx ∷ k.cx ∷ k.dx ∷ k.ex ∷ k.fx ∷ k.gx ∷ k.hx ∷ k.pc ∷ k.base ∷ k.limite ∷ []

-- Its parameter `evento` is not used.
unfoldable pub actualizar_contexto_y_enviar : Cpu → Resultado Cpu
unfolding esperar
actualizar_contexto_y_enviar k = do
  let dicho =
      decir_a_memoria k
        (numeros OpCode.actualizar_contexto_de_ejecucion (k.pid ∷ k.tid ∷ contexto k))
  (codigo, s) ← recibir_operacion k.de_memoria
  s1 ← esperar OpCode.contexto_actualizado codigo s
  (respuesta, s2) ← recibir_una_cadena s1
  ok (record dicho { de_memoria = s2 })

-- The processor and what `traducir_direccion_logica` returns; -1 is 2 ^ 32 - 1 as a `uint32_t`.
unfoldable pub traducir_direccion_logica : Cpu → ℕ → Resultado (Cpu × ℕ)
unfolding actualizar_contexto_y_enviar
traducir_direccion_logica k direccion_logica =
    if ltb k.limite (direccion_logica + 4)
    then (do
      k' ← actualizar_contexto_y_enviar k
      ok (
        record (decir_al_kernel k' (numeros OpCode.segmentation_fault (k.tid ∷ []))) {
          seguir_ejecutando = false;
        },
        4294967295,
      ))
    else ok (k, add32 k.base direccion_logica)

-- What follows the translation in `ejecutar_read_mem`.
unfoldable pub leer_en : Cpu → List ℕ → ℕ → Resultado Cpu
unfolding esperar
leer_en k reg_datos direccion_fisica =
    if not (ltb direccion_fisica 0)
    then (do
      let dicho =
          decir_a_memoria k (numeros OpCode.read_mem (k.pid ∷ k.tid ∷ direccion_fisica ∷ []))
      (codigo, s) ← recibir_operacion k.de_memoria
      s1 ← esperar OpCode.respuesta_lectura codigo s
      (valor_memoria, s2) ← recibir_un_entero s1
      ok (avanzar (ejecutar_set (record dicho { de_memoria = s2 }) reg_datos valor_memoria)))
    else ok k

unfoldable pub ejecutar_read_mem : Cpu → List ℕ → List ℕ → Resultado Cpu
unfolding buscar_valor_registro traducir_direccion_logica leer_en
ejecutar_read_mem k reg_datos reg_direccion = do
  direccion_logica ← buscar_valor_registro k reg_direccion
  (k', direccion_fisica) ← traducir_direccion_logica k direccion_logica
  leer_en k' reg_datos direccion_fisica

-- What follows the translation in `ejecutar_write_mem`.
unfoldable pub escribir_en : Cpu → List ℕ → ℕ → Resultado Cpu
unfolding buscar_valor_registro esperar
escribir_en k reg_datos direccion_fisica =
    if not (ltb direccion_fisica 0)
    then (do
      valor_datos ← buscar_valor_registro k reg_datos
      let dicho =
          decir_a_memoria k
            (numeros OpCode.write_mem (k.pid ∷ k.tid ∷ direccion_fisica ∷ valor_datos ∷ []))
      (codigo, s) ← recibir_operacion k.de_memoria
      s1 ← esperar OpCode.respuesta_escritura codigo s
      (respuesta, s2) ← recibir_una_cadena s1
      texto ← cadena_c respuesta
      ok (avanzar (record dicho { de_memoria = s2 })))
    else ok k

unfoldable pub ejecutar_write_mem : Cpu → List ℕ → List ℕ → Resultado Cpu
unfolding buscar_valor_registro traducir_direccion_logica escribir_en
ejecutar_write_mem k reg_direccion reg_datos = do
  direccion_logica ← buscar_valor_registro k reg_direccion
  (k', direccion_fisica) ← traducir_direccion_logica k direccion_logica
  escribir_en k' reg_datos direccion_fisica

-- `recibir_contexto_y_actualizar2`
unfoldable pub recibir_contexto : Cpu → List ℕ → Resultado Cpu
unfolding deserializar_int
recibir_contexto k socket = do
  (b0, resto) ← recibir_buffer2 socket
  (ax, b1) ← deserializar_int b0
  (bx, b2) ← deserializar_int b1
  (cx, b3) ← deserializar_int b2
  (dx, b4) ← deserializar_int b3
  (ex, b5) ← deserializar_int b4
  (fx, b6) ← deserializar_int b5
  (gx, b7) ← deserializar_int b6
  (hx, b8) ← deserializar_int b7
  (pc, b9) ← deserializar_int b8
  (base, b10) ← deserializar_int b9
  (limite, b11) ← deserializar_int b10
  ok (record k {
    ax = ax;
    bx = bx;
    cx = cx;
    dx = dx;
    ex = ex;
    fx = fx;
    gx = gx;
    hx = hx;
    pc = pc;
    base = base;
    limite = limite;
    de_memoria = resto;
  })

-- `solicitar_contexto_memoria`, up to the start of the cycle of instructions.
unfoldable pub solicitar_contexto_memoria : Cpu → Resultado Cpu
unfolding esperar recibir_contexto
solicitar_contexto_memoria k = do
  let dicho = decir_a_memoria k (numeros OpCode.obtener_contexto_de_ejecucion (k.pid ∷ k.tid ∷ []))
  (codigo, s) ← recibir_operacion k.de_memoria
  s1 ← esperar OpCode.respuesta_contexto_de_ejecucion codigo s
  recibir_contexto dicho s1
