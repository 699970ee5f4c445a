-- ===== src/Cpu/Interrupcion.antt =====
-- Interrupts of cpu/src/mainCPU.c: what `interruptProceso` leaves for `check_interrupt`.
use tp_sistemas_operativos.Base.{
  length, ◌+◌, ℕ, ◌<◌, ◌≡◌, true, false, ◌&&◌, List, [], ◌∷◌, ◌++◌, arith, ◌==◌, ==_self, u32_mod,
}
use tp_sistemas_operativos.Base.Resultado.{ok}
use tp_sistemas_operativos.Cpu.Ejecucion.{check_interrupt, interrumpir}
use tp_sistemas_operativos.Cpu.Mmu.{numeros, esperar}
use tp_sistemas_operativos.Cpu.Protocolo.{recibir_operacion-numeros}
use tp_sistemas_operativos.Cpu.Registros.{Cpu}
use tp_sistemas_operativos.Utils.Mensajes.{dos_enteros-cuerpo}
use tp_sistemas_operativos.Utils.OpCode.{OpCode, valor}
use tp_sistemas_operativos.Utils.Paquete.{enviar_respuesta}
use tp_sistemas_operativos.Cpu.Guardado.{guardada, actualizar_contexto_y_enviar-guardada}

-- The interrupt of a thread is pending.
abbrev pub con_interrupcion : Cpu → ℕ → ℕ → Cpu
con_interrupcion k p t = record k { pid_interrupt = p; tid_interrupt = t }

pub interrumpir-numeros :
    (k : Cpu) (p t : ℕ) (resto : List ℕ)
    → p < u32_mod
    → t < u32_mod
    → interrumpir k (numeros OpCode.fin_de_quantum (p ∷ t ∷ []) ++ resto)
      ≡ ok (con_interrupcion k p t, resto)
unfolding interrumpir esperar
interrumpir-numeros k p t resto hp ht = rw (
  recibir_operacion-numeros OpCode.fin_de_quantum (p ∷ t ∷ []) resto (omega arith),
  ==_self (valor OpCode.fin_de_quantum),
  dos_enteros-cuerpo p t 0 0 hp ht (omega arith) (omega arith) resto,
)

-- The check, when the interrupt is for the thread that runs and the memory answers to its context.
pub check_interrupt-mismo_hilo :
    (k : Cpu) (texto resto : List ℕ)
    → length texto + 5 < 2147483648
    → k.de_memoria ≡ enviar_respuesta texto OpCode.contexto_actualizado ++ resto
    → check_interrupt (con_interrupcion k k.pid k.tid)
      ≡ ok (record (guardada k resto) {
        a_kernel = k.a_kernel ++ numeros OpCode.fin_de_quantum (k.tid ∷ []);
        seguir_ejecutando = false;
        pid_interrupt = 4294967295;
        tid_interrupt = 4294967295;
      })
unfolding check_interrupt
check_interrupt-mismo_hilo k texto resto corto contesta =
    let si : ((k.pid == k.pid) && (k.tid == k.tid)) ≡ true = ground arith in
    let guarda =
      actualizar_contexto_y_enviar-guardada
        (record (con_interrupcion k k.pid k.tid) { seguir_ejecutando = false }) texto resto corto
        contesta in
    rw (si, guarda)
