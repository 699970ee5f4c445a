-- ===== src/Cpu/Guardado.antt =====
-- `actualizar_contexto_y_enviar` of cpu/src/mainCPU.c, when the answer of the memory is in the socket.
use tp_sistemas_operativos.Base.{ℕ, ◌+◌, ◌<◌, ◌≡◌, List, [], ◌∷◌, ◌++◌, length, arith, ==_self}
use tp_sistemas_operativos.Base.Resultado.{ok}
use tp_sistemas_operativos.Cpu.Mmu.{numeros, esperar, actualizar_contexto_y_enviar}
use tp_sistemas_operativos.Cpu.Registros.{Cpu}
use tp_sistemas_operativos.Utils.Cadenas.{recibir_operacion-enviar_respuesta, una_cadena-cuerpo}
use tp_sistemas_operativos.Utils.OpCode.{OpCode, valor}
use tp_sistemas_operativos.Utils.Paquete.{enviar_respuesta}

-- The request to save the context: the ids of the thread and its eleven registers.
abbrev pub pedido_de_guardar : Cpu → List ℕ
pedido_de_guardar k = numeros OpCode.actualizar_contexto_de_ejecucion (
    k.pid ∷ k.tid ∷ k.ax ∷ k.bx ∷ k.cx ∷ k.dx ∷ k.ex ∷ k.fx ∷ k.gx ∷ k.hx ∷ k.pc ∷ k.base ∷ k.limite
    ∷ [])

abbrev pub guardada : Cpu → List ℕ → Cpu
guardada k resto = record k { a_memoria = k.a_memoria ++ pedido_de_guardar k; de_memoria = resto }

pub actualizar_contexto_y_enviar-guardada :
    (k : Cpu) (texto resto : List ℕ)
    → length texto + 5 < 2147483648
    → k.de_memoria ≡ enviar_respuesta texto OpCode.contexto_actualizado ++ resto
    → actualizar_contexto_y_enviar k ≡ ok (guardada k resto)
unfolding actualizar_contexto_y_enviar esperar
actualizar_contexto_y_enviar-guardada k texto resto corto contesta = rw (
  contesta,
  recibir_operacion-enviar_respuesta OpCode.contexto_actualizado texto resto (omega arith),
  ==_self (valor OpCode.contexto_actualizado),
  una_cadena-cuerpo texto corto resto,
)
