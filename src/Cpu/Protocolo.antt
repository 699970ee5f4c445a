-- ===== src/Cpu/Protocolo.antt =====
-- The contexts on the wire: `actualizar_contexto_y_enviar` and `solicitar_contexto_memoria` of
-- cpu/src/mainCPU.c against `atender_cpu` of memoria/src/mainMemoria.c.
use tp_sistemas_operativos.Base.{
  ℕ, ◌≤◌, ◌<◌, ◌≡◌, refl, sym, ap, ◌∙◌, some, List, [], ◌∷◌, ◌++◌, arith, append-nil, codes,
  ==_self, length, All, u32_mod,
}
use tp_sistemas_operativos.Base.Resultado.{ok, ◌>>=◌, >>=-eq-ok, >>=_assoc}
use tp_sistemas_operativos.Commons.{Listas}
use tp_sistemas_operativos.Cpu.Registros.{Cpu}
use tp_sistemas_operativos.Cpu.Mmu.{
  numeros, decir_a_memoria, contexto, esperar, recibir_contexto, solicitar_contexto_memoria,
}
use tp_sistemas_operativos.Memoria.Procesos.{Memoria}
use tp_sistemas_operativos.Memoria.Cpu.{
  Contexto, campos, deserializar_contexto, actualizar_contexto, recibir_contexto_y_actualizar,
  obtener_contexto, atender_codigo, atender_cpu,
}
use tp_sistemas_operativos.Memoria.Contexto.{actualizar_contexto-obtener_contexto}
use tp_sistemas_operativos.Utils.Bytes.{leer_entero-bytes_de}
use tp_sistemas_operativos.Utils.Mensajes.{
  agregar_enteros-paquete_de, bytes_de_todos, recibir_buffer2-enteros, dos_enteros-cuerpo,
}
use tp_sistemas_operativos.Utils.OpCode.{OpCode, valor, de_valor-valor}
use tp_sistemas_operativos.Utils.Paquete.{crear_paquete, enviar_respuesta}
use tp_sistemas_operativos.Utils.Recepcion.{recibir_operacion, deserializar_int}
use tp_sistemas_operativos.Utils.Viaje.{cuerpo, recibir_operacion-enviar_paquete}

-- Every number fits in the four bytes that carry it.
abbrev pub CabenEn32 : List ℕ → Type 0
CabenEn32 = All (λ n. n < u32_mod)

-- The registers of the processor as the memory stores them.
abbrev pub contexto_guardado : Cpu → Contexto
contexto_guardado k = record {
  ax = k.ax;
  bx = k.bx;
  cx = k.cx;
  dx = k.dx;
  ex = k.ex;
  fx = k.fx;
  gx = k.gx;
  hx = k.hx;
  pc = k.pc;
  base = k.base;
  limite = k.limite;
}

-- A processor with the registers of a context.
abbrev pub con_contexto : Cpu → Contexto → Cpu
con_contexto k x = record k {
  ax = x.ax;
  bx = x.bx;
  cx = x.cx;
  dx = x.dx;
  ex = x.ex;
  fx = x.fx;
  gx = x.gx;
  hx = x.hx;
  pc = x.pc;
  base = x.base;
  limite = x.limite;
}

-- A message of numbers at the head of a socket: its code, and its body after it.
pub recibir_operacion-numeros :
    (o : OpCode) (ns resto : List ℕ)
    → length ns ≤ 13
    → recibir_operacion (numeros o ns ++ resto)
      ≡ ok (some (valor o), cuerpo (bytes_de_todos ns) ++ resto)
unfolding crear_paquete
recibir_operacion-numeros o ns resto h =
    rw (agregar_enteros-paquete_de o [] ns (omega arith))
      (recibir_operacion-enviar_paquete o (bytes_de_todos ns) resto)

deserializar_contexto-campos :
    (x : Contexto)
    → CabenEn32 (campos x)
    → deserializar_contexto (bytes_de_todos (campos x)) ≡ ok (x, [])
unfolding deserializar_contexto deserializar_int
deserializar_contexto-campos x h = rw (
  leer_entero-bytes_de x.ax _ h.0,
  leer_entero-bytes_de x.bx _ h.1.0,
  leer_entero-bytes_de x.cx _ h.1.1.0,
  leer_entero-bytes_de x.dx _ h.1.1.1.0,
  leer_entero-bytes_de x.ex _ h.1.1.1.1.0,
  leer_entero-bytes_de x.fx _ h.1.1.1.1.1.0,
  leer_entero-bytes_de x.gx _ h.1.1.1.1.1.1.0,
  leer_entero-bytes_de x.hx _ h.1.1.1.1.1.1.1.0,
  leer_entero-bytes_de x.pc _ h.1.1.1.1.1.1.1.1.0,
  leer_entero-bytes_de x.base _ h.1.1.1.1.1.1.1.1.1.0,
  leer_entero-bytes_de x.limite _ h.1.1.1.1.1.1.1.1.1.1.0,
)

-- The same registers, read by the processor.
recibir_contexto-campos :
    (k : Cpu) (x : Contexto)
    → CabenEn32 (campos x)
    → recibir_contexto k (cuerpo (bytes_de_todos (campos x)) ++ [])
      ≡ ok (con_contexto (record k { de_memoria = [] }) x)
unfolding recibir_contexto deserializar_int
recibir_contexto-campos k x h = rw (
  recibir_buffer2-enteros (campos x) [] (omega arith),
  leer_entero-bytes_de x.ax _ h.0,
  leer_entero-bytes_de x.bx _ h.1.0,
  leer_entero-bytes_de x.cx _ h.1.1.0,
  leer_entero-bytes_de x.dx _ h.1.1.1.0,
  leer_entero-bytes_de x.ex _ h.1.1.1.1.0,
  leer_entero-bytes_de x.fx _ h.1.1.1.1.1.0,
  leer_entero-bytes_de x.gx _ h.1.1.1.1.1.1.0,
  leer_entero-bytes_de x.hx _ h.1.1.1.1.1.1.1.0,
  leer_entero-bytes_de x.pc _ h.1.1.1.1.1.1.1.1.0,
  leer_entero-bytes_de x.base _ h.1.1.1.1.1.1.1.1.1.0,
  leer_entero-bytes_de x.limite _ h.1.1.1.1.1.1.1.1.1.1.0,
)

module _ (c : Listas) where
  -- The memory gets the context as the processor has it.
  recibir_contexto_y_actualizar-contexto :
      (m : Memoria) (pid tid : ℕ) (x : Contexto) (resto : List ℕ)
      → CabenEn32 (pid ∷ tid ∷ campos x)
      → recibir_contexto_y_actualizar c m (cuerpo (bytes_de_todos (pid ∷ tid ∷ campos x)) ++ resto)
        ≡ (actualizar_contexto c m pid tid x >>= (λ m'. ok (m', resto)))
  unfolding recibir_contexto_y_actualizar deserializar_int
  recibir_contexto_y_actualizar-contexto m pid tid x resto h = rw (
    recibir_buffer2-enteros (pid ∷ tid ∷ campos x) resto (omega arith),
    leer_entero-bytes_de pid _ h.0,
    leer_entero-bytes_de tid _ h.1.0,
    deserializar_contexto-campos x h.1.1,
  )

  -- A message of numbers takes the memory to the branch of its code.
  pub atender_cpu-numeros :
      (m : Memoria) (o : OpCode) (ns : List ℕ)
      → length ns ≤ 13
      → atender_cpu c m (numeros o ns)
        ≡ atender_codigo c m (some o) (cuerpo (bytes_de_todos ns) ++ [])
  unfolding atender_cpu
  atender_cpu-numeros m o ns h =
      rw (sym (append-nil (numeros o ns)), recibir_operacion-numeros o ns [] h, de_valor-valor o)

  atender_cpu-actualizar :
      (m : Memoria) (pid tid : ℕ) (x : Contexto)
      → CabenEn32 (pid ∷ tid ∷ campos x)
      → atender_cpu c m (numeros OpCode.actualizar_contexto_de_ejecucion (pid ∷ tid ∷ campos x)) ≡ (
          actualizar_contexto c m pid tid x
          >>= (λ m'. ok (m', enviar_respuesta (codes "OK") OpCode.contexto_actualizado, [])))
  unfolding atender_codigo
  atender_cpu-actualizar m pid tid x h =
      atender_cpu-numeros m OpCode.actualizar_contexto_de_ejecucion (pid ∷ tid ∷ campos x)
        (omega arith)
      ∙ ap
          (λ r. r >>= (λ (m', s').
            ok (m', enviar_respuesta (codes "OK") OpCode.contexto_actualizado, s')))
          (recibir_contexto_y_actualizar-contexto m pid tid x [] h)
      ∙ >>=_assoc (actualizar_contexto c m pid tid x) _ _

  atender_cpu-obtener :
      (m : Memoria) (pid tid : ℕ) (x : Contexto)
      → CabenEn32 (pid ∷ tid ∷ [])
      → obtener_contexto c m pid tid ≡ ok x
      → atender_cpu c m (numeros OpCode.obtener_contexto_de_ejecucion (pid ∷ tid ∷ []))
        ≡ ok (m, numeros OpCode.respuesta_contexto_de_ejecucion (campos x), [])
  unfolding atender_codigo
  atender_cpu-obtener m pid tid x h e =
      atender_cpu-numeros m OpCode.obtener_contexto_de_ejecucion (pid ∷ tid ∷ []) (omega arith)
      ∙ rw (dos_enteros-cuerpo pid tid 0 0 h.0 h.1.0 (omega arith) (omega arith) [], e)

solicitar_contexto_memoria-campos :
    (k : Cpu) (x : Contexto)
    → CabenEn32 (campos x)
    → k.de_memoria ≡ numeros OpCode.respuesta_contexto_de_ejecucion (campos x)
    → solicitar_contexto_memoria k
      ≡ ok (
          con_contexto
            (record (decir_a_memoria k
              (numeros OpCode.obtener_contexto_de_ejecucion (k.pid ∷ k.tid ∷ []))) {
                de_memoria = [];
              })
            x)
unfolding solicitar_contexto_memoria esperar
solicitar_contexto_memoria-campos k x h e =
    rw
      (
        e,
        sym (append-nil (numeros OpCode.respuesta_contexto_de_ejecucion (campos x))),
        recibir_operacion-numeros OpCode.respuesta_contexto_de_ejecucion (campos x) []
            (omega arith),
        ==_self (valor OpCode.respuesta_contexto_de_ejecucion),
      )
      (recibir_contexto-campos
        (decir_a_memoria k (numeros OpCode.obtener_contexto_de_ejecucion (k.pid ∷ k.tid ∷ []))) x h)

-- For a processor whose ids, registers, base and limit are below 2 ^ 32: once the memory has handled
-- the message with its context, it answers a request for the context of that thread and stays as it
-- is, and any processor that reads this answer has the eleven numbers of the one that sent them.
pub contexto-ida_y_vuelta :
    (c : Listas) (m m' : Memoria) (k j : Cpu) (respuesta resto : List ℕ)
    → CabenEn32 (k.pid ∷ k.tid ∷ contexto k)
    → atender_cpu c m (numeros OpCode.actualizar_contexto_de_ejecucion (k.pid ∷ k.tid ∷ contexto k))
      ≡ ok (m', respuesta, resto)
    → (contestado : List ℕ) × (atender_cpu c m'
          (numeros OpCode.obtener_contexto_de_ejecucion (k.pid ∷ k.tid ∷ []))
        ≡ ok (m', contestado, []))
      × (solicitar_contexto_memoria (record j { pid = k.pid; tid = k.tid; de_memoria = contestado })
          ≡ ok (
              con_contexto
                (record j {
                  pid = k.pid;
                  tid = k.tid;
                  de_memoria = [];
                  a_memoria =
                      j.a_memoria
                      ++ numeros OpCode.obtener_contexto_de_ejecucion (k.pid ∷ k.tid ∷ []);
                })
                (contexto_guardado k)))
contexto-ida_y_vuelta c m m' k j respuesta resto h hecho =
    let x : Contexto = contexto_guardado k in
    let (m1, e, final) =
      >>=-eq-ok (actualizar_contexto c m k.pid k.tid x) _
        (sym (atender_cpu-actualizar c m k.pid k.tid x h) ∙ hecho) in
    let e' : actualizar_contexto c m k.pid k.tid x ≡ ok m' = cc in
    (
      numeros OpCode.respuesta_contexto_de_ejecucion (campos x),
      atender_cpu-obtener c m' k.pid k.tid x (h.0, (h.1.0, tt))
          (actualizar_contexto-obtener_contexto c m m' k.pid k.tid x e'),
      solicitar_contexto_memoria-campos _ x h.1.1 refl,
    )
