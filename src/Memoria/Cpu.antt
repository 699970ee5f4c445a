-- ===== src/Memoria/Cpu.antt =====
-- `atender_cpu` of mainMemoria.c: one message of the processor, from its bytes to the new state and
-- the bytes of the answer. The loop repeats it on the same connection.
use tp_sistemas_operativos.Base.{ℕ, Option, some, List, [], ◌∷◌, codes, modify_p}
use tp_sistemas_operativos.Base.Resultado.{Resultado, ok, salir, ◌>>=◌, deref}
use tp_sistemas_operativos.Commons.{Listas}
use tp_sistemas_operativos.Memoria.Hilos.{Tid}
use tp_sistemas_operativos.Memoria.Procesos.{
  Proceso, Memoria, tiene_el_mismo_pid, tiene_el_mismo_tid, obtener_proceso, obtener_tid,
  leer_memoria, escribir_memoria,
}
use tp_sistemas_operativos.Utils.Bytes.{bytes_de, leer_entero}
use tp_sistemas_operativos.Utils.Mensajes.{agregar_enteros}
use tp_sistemas_operativos.Utils.OpCode.{OpCode, constante}
use tp_sistemas_operativos.Utils.Paquete.{crear_paquete, enviar_paquete, enviar_respuesta}
use tp_sistemas_operativos.Utils.Recepcion.{
  recibir_operacion, recibir_buffer2, deserializar_int, recibir_dos_enteros, recibir_tres_enteros,
  recibir_cuatro_enteros,
}

-- What travels between the processor and the memory for a thread: its registers, its program
-- counter, and the base and the limit of its process.
pub record Contexto : Type 0 where
  pub ax : ℕ
  pub bx : ℕ
  pub cx : ℕ
  pub dx : ℕ
  pub ex : ℕ
  pub fx : ℕ
  pub gx : ℕ
  pub hx : ℕ
  pub pc : ℕ
  pub base : ℕ
  pub limite : ℕ

-- The order in which the fields are sent and read.
abbrev pub campos : Contexto → List ℕ
campos k = k.ax ∷ k.bx ∷ k.cx ∷ k.dx ∷ k.ex ∷ k.fx ∷ k.gx ∷ k.hx ∷ k.pc ∷ k.base ∷ k.limite ∷ []

abbrev pub contexto_de : Proceso → Tid → Contexto
contexto_de p t = record {
  ax = t.ax;
  bx = t.bx;
  cx = t.cx;
  dx = t.dx;
  ex = t.ex;
  fx = t.fx;
  gx = t.gx;
  hx = t.hx;
  pc = t.pc;
  base = p.base;
  limite = p.limite;
}

abbrev pub escribir_tid : Contexto → Tid → Tid
escribir_tid k t = record t {
  ax = k.ax;
  bx = k.bx;
  cx = k.cx;
  dx = k.dx;
  ex = k.ex;
  fx = k.fx;
  gx = k.gx;
  hx = k.hx;
  pc = k.pc;
}

-- The eleven reads of `deserializar_int` into a context.
unfoldable pub deserializar_contexto : List ℕ → Resultado (Contexto × List ℕ)
unfolding deserializar_int
deserializar_contexto b0 = do
  (ax, b1) ← deserializar_int b0
  (bx, b2) ← deserializar_int b1
  (cx, b3) ← deserializar_int b2
  (dx, b4) ← deserializar_int b3
  (ex, b5) ← deserializar_int b4
  (fx, b6) ← deserializar_int b5
  (gx, b7) ← deserializar_int b6
  (hx, b8) ← deserializar_int b7
  (pc, b9) ← deserializar_int b8
  (base, b10) ← deserializar_int b9
  (limite, b11) ← deserializar_int b10
  ok (
    record {
      ax = ax;
      bx = bx;
      cx = cx;
      dx = dx;
      ex = ex;
      fx = fx;
      gx = gx;
      hx = hx;
      pc = pc;
      base = base;
      limite = limite;
    },
    b11,
  )

-- case READ_MEM: the four bytes as a number.
unfoldable pub read_mem : Memoria → ℕ → Resultado ℕ
read_mem m direccion_fisica = do
  datos ← leer_memoria m.espacio direccion_fisica 4
  (valor, resto) ← leer_entero datos
  ok valor

-- case WRITE_MEM
unfoldable pub write_mem : Memoria → ℕ → ℕ → Resultado Memoria
write_mem m direccion_fisica valor = do
  espacio ← escribir_memoria m.espacio direccion_fisica (bytes_de valor) 4
  ok (record m { espacio = espacio })

module _ (c : Listas) where
  open c use {list_get}

  -- What `recibir_contexto_y_actualizar` writes: the thread's registers, and the base and the limit
  -- of its process.
  abbrev pub actualizar_proceso : ℕ → Contexto → Proceso → Proceso
  actualizar_proceso tid k p = record p {
    base = k.base;
    limite = k.limite;
    tids = modify_p (tiene_el_mismo_tid tid) (escribir_tid k) p.tids;
  }

  unfoldable pub actualizar_contexto : Memoria → ℕ → ℕ → Contexto → Resultado Memoria
  actualizar_contexto m pid tid_a_buscar k = do
    proceso ← deref (obtener_proceso c pid m.lista_de_procesos)
    tid ← deref (obtener_tid c proceso.tids tid_a_buscar)
    ok (record m {
      lista_de_procesos =
          modify_p (tiene_el_mismo_pid pid) (actualizar_proceso tid_a_buscar k) m.lista_de_procesos;
    })

  unfoldable pub recibir_contexto_y_actualizar : Memoria → List ℕ → Resultado (Memoria × List ℕ)
  unfolding deserializar_contexto deserializar_int
  recibir_contexto_y_actualizar m socket = do
    (buffer, resto) ← recibir_buffer2 socket
    (pid, b1) ← deserializar_int buffer
    (tid_a_buscar, b2) ← deserializar_int b1
    (k, b3) ← deserializar_contexto b2
    m' ← actualizar_contexto m pid tid_a_buscar k
    ok (m', resto)

  -- case OBTENER_CONTEXTO_DE_EJECUCION
  unfoldable pub obtener_contexto : Memoria → ℕ → ℕ → Resultado Contexto
  obtener_contexto m pid tid_a_buscar = do
    proceso ← deref (obtener_proceso c pid m.lista_de_procesos)
    tid ← deref (obtener_tid c proceso.tids tid_a_buscar)
    ok (contexto_de proceso tid)

  -- case OBTENER_INSTRUCCION; past the last instruction the answer is made of NULL.
  unfoldable pub obtener_instruccion : Memoria → ℕ → ℕ → ℕ → Resultado (List ℕ)
  obtener_instruccion m pid tid_a_buscar program_counter = do
    proceso ← deref (obtener_proceso c pid m.lista_de_procesos)
    tid ← deref (obtener_tid c proceso.tids tid_a_buscar)
    deref (list_get tid.lista_de_instrucciones program_counter)

  -- The `switch` of `atender_cpu`: the state, the answer, and what is left in the socket.
  unfoldable pub atender_codigo :
      Memoria → Option OpCode → List ℕ → Resultado (Memoria × List ℕ × List ℕ)
  atender_codigo m (some OpCode.obtener_contexto_de_ejecucion) s = do
    ((pid, tid_a_buscar), s') ← recibir_dos_enteros s
    k ← obtener_contexto m pid tid_a_buscar
    ok (
      m,
      enviar_paquete
          (agregar_enteros (crear_paquete OpCode.respuesta_contexto_de_ejecucion) (campos k)),
      s',
    )
  atender_codigo m (some OpCode.actualizar_contexto_de_ejecucion) s = do
    (m', s') ← recibir_contexto_y_actualizar m s
    ok (m', enviar_respuesta (codes "OK") OpCode.contexto_actualizado, s')
  atender_codigo m (some OpCode.obtener_instruccion) s = do
    ((pid, tid_a_buscar, program_counter), s') ← recibir_tres_enteros s
    instruccion ← obtener_instruccion m pid tid_a_buscar program_counter
    ok (m, enviar_respuesta instruccion OpCode.respuesta_instruccion, s')
  atender_codigo m (some OpCode.read_mem) s = do
    ((pid, tid_a_buscar, direccion_fisica), s') ← recibir_tres_enteros s
    valor ← read_mem m direccion_fisica
    ok (
      m,
      enviar_paquete (agregar_enteros (crear_paquete OpCode.respuesta_lectura) (valor ∷ [])),
      s',
    )
  atender_codigo m (some OpCode.write_mem) s = do
    ((pid, tid_a_buscar, direccion_fisica, valor), s') ← recibir_cuatro_enteros s
    m' ← write_mem m direccion_fisica valor
    ok (m', enviar_respuesta (codes "OK") OpCode.respuesta_escritura, s')
  atender_codigo m _ s = salir

  unfoldable pub atender_cpu : Memoria → List ℕ → Resultado (Memoria × List ℕ × List ℕ)
  unfolding atender_codigo
  atender_cpu m socket = do
    (codigo, s) ← recibir_operacion socket
    atender_codigo m (constante codigo) s
