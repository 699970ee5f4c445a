-- ===== src/Pruebas/DeCpu.antt =====
-- The processor on concrete registers, lines and answers of the memory, and the theorems about it
-- applied there.
use tp_sistemas_operativos.Base.{
  inr, if◌then◌else◌, ◌==◌, ◌⊎◌, ℕ, ◌+◌, ◌≤◌, ◌<◌, ◌≡◌, ◌≢◌, refl, Bool, true, false, Option, none,
  some, List, [], ◌∷◌, ◌++◌, arith, codes, add32, u32_mod, length, replicate,
}
use tp_sistemas_operativos.Base.Resultado.{ok, falla}
use tp_sistemas_operativos.Commons.Referencia.{referencia}
use tp_sistemas_operativos.Cpu.Analisis.{unir, parsear_instruccion-unir}
use tp_sistemas_operativos.Cpu.Aritmetica.{
  Registro, reg_ax, reg_bx, reg_hx, nombre, leer, ejecutar_set-buscar_valor_registro,
  ejecutar_sum-ejecutar_sub, ejecutar_jnz-pc,
}
use tp_sistemas_operativos.Cpu.Ejecucion.{turno}
use tp_sistemas_operativos.Cpu.Instruccion.{parsear_instruccion, atoi}
use tp_sistemas_operativos.Cpu.Guardado.{pedido_de_guardar}
use tp_sistemas_operativos.Cpu.Mmu.{
  numeros, decir_al_kernel, contexto, actualizar_contexto_y_enviar, traducir_direccion_logica,
  leer_en, ejecutar_read_mem, solicitar_contexto_memoria,
}
use tp_sistemas_operativos.Cpu.Protocolo.{contexto_guardado, con_contexto, contexto-ida_y_vuelta}
use tp_sistemas_operativos.Cpu.Registros.{
  avanzar, ejecutar_set, Cpu, buscar_valor_registro, ejecutar_set, ejecutar_sum, ejecutar_sub,
  ejecutar_jnz,
}
use tp_sistemas_operativos.Cpu.Traduccion.{
  EnParticion, traducir_direccion_logica-dentro, traducir_direccion_logica-fuera,
  ejecutar_read_mem-falla,
}
use tp_sistemas_operativos.Memoria.Cpu.{
  deserializar_contexto, actualizar_contexto, recibir_contexto_y_actualizar, atender_cpu,
}
use tp_sistemas_operativos.Memoria.Hilos.{hilo_inicial}
use tp_sistemas_operativos.Memoria.Procesos.{Memoria, obtener_proceso, obtener_tid}
use tp_sistemas_operativos.Utils.OpCode
use tp_sistemas_operativos.Utils.OpCode.{OpCode}
use tp_sistemas_operativos.Utils.Paquete.{
  crear_paquete, agregar_entero, enviar_paquete, enviar_respuesta,
}

-- Process 1, thread 0, in the partition from 16 to 31; what the memory will say is given.
abbrev pub cpu : List ℕ → Cpu
cpu respuestas = record {
  ax = 20;
  bx = 4294967295;
  cx = 0;
  dx = 0;
  ex = 0;
  fx = 0;
  gx = 0;
  hx = 5;
  pc = 3;
  base = 16;
  limite = 31;
  pid = 1;
  tid = 0;
  pid_interrupt = 4294967295;
  tid_interrupt = 4294967295;
  seguir_ejecutando = true;
  a_memoria = [];
  de_memoria = respuestas;
  a_kernel = [];
}

abbrev memoria : Memoria
memoria = record {
  huecos_libres = [];
  lista_de_procesos =
      record { pid = 1; base = 16; limite = 31; tids = hilo_inicial 0 (codes "LOG AX" ∷ []) ∷ [] }
      ∷ [];
  espacio = replicate 32 0;
}

ejecutar_set-buscar_valor_registro_example :
    (buscar_valor_registro (ejecutar_set (cpu []) (nombre reg_ax) 9) (nombre reg_ax) ≡ ok 9)
    × ((s : Registro)
        → s ≢ reg_ax
        → buscar_valor_registro (ejecutar_set (cpu []) (nombre reg_ax) 9) (nombre s)
          ≡ buscar_valor_registro (cpu []) (nombre s))
ejecutar_set-buscar_valor_registro_example = ejecutar_set-buscar_valor_registro (cpu []) reg_ax 9

distintos : reg_bx ≢ reg_ax
distintos e = cc

ejecutar_sum-ejecutar_sub_example :
    (k' : Cpu) × (ejecutar_sum (cpu []) (nombre reg_ax) (nombre reg_bx) ≡ ok k')
    × (buscar_valor_registro k' (nombre reg_ax)
        ≡ ok (add32 (leer reg_ax (cpu [])) (leer reg_bx (cpu []))))
    × (ejecutar_sub k' (nombre reg_ax) (nombre reg_bx) ≡ ok (cpu []))
unfolding leer
ejecutar_sum-ejecutar_sub_example =
    ejecutar_sum-ejecutar_sub (cpu []) reg_ax reg_bx distintos (omega arith) (omega arith)

ejecutar_jnz-pc_example :
    ejecutar_jnz (cpu []) (nombre reg_hx) 12
    ≡ record (cpu []) { pc = if leer reg_hx (cpu []) == 0 then add32 3 1 else 12 }
ejecutar_jnz-pc_example = ejecutar_jnz-pc (cpu []) reg_hx 12

parsear_instruccion-unir_example :
    parsear_instruccion (unir (codes "SET" ∷ codes "AX" ∷ codes "7" ∷ [])) ≡ record {
      codigo = some (codes "SET");
      par1 = some (codes "AX");
      par2 = some (codes "7");
      par3 = none;
    }
parsear_instruccion-unir_example =
    parsear_instruccion-unir (codes "SET" ∷ codes "AX" ∷ codes "7" ∷ []) (
      ((λ e. cc), ((λ e. omega arith), ((λ e. omega arith), ((λ e. omega arith), tt)))),
      (
        ((λ e. cc), ((λ e. omega arith), ((λ e. omega arith), tt))),
        (((λ e. cc), ((λ e. omega arith), tt)), tt),
      ),
    )

abbrev al_principio : Cpu
al_principio = record (cpu []) { base = 0; limite = 15 }

traducir_direccion_logica-dentro_example :
    (al_principio ≡ al_principio) × EnParticion al_principio 8
unfolding traducir_direccion_logica
traducir_direccion_logica-dentro_example =
    traducir_direccion_logica-dentro al_principio al_principio 8 8 (omega arith) (omega arith) refl
      refl

traducir_direccion_logica-fuera_example :
    (n : ℕ) × (d : ℕ) × (traducir_direccion_logica (cpu []) n ≡ ok (cpu [], d)) × (31 < d + 3)
traducir_direccion_logica-fuera_example =
    traducir_direccion_logica-fuera (cpu []) (omega arith) (omega arith) (omega arith)

abbrev confirmacion : List ℕ
confirmacion = enviar_respuesta (codes "OK") OpCode.contexto_actualizado

-- The memory's answer to the context, and then an answer to a read.
abbrev dos_respuestas : List ℕ
dos_respuestas = confirmacion ++ (numeros OpCode.respuesta_lectura (9 ∷ []) ++ [])

ejecutar_read_mem-falla_example :
    (ejecutar_read_mem (cpu dos_respuestas) (codes "AX") (codes "BX")
      ≡ ok (
          avanzar (
            ejecutar_set
              (record (cpu []) {
                a_memoria =
                    pedido_de_guardar (cpu []) ++ numeros OpCode.read_mem (1 ∷ 0 ∷ 4294967295 ∷ []);
                a_kernel = numeros OpCode.segmentation_fault (0 ∷ []);
                seguir_ejecutando = false;
              })
              (codes "AX")
              9)))
    × (atender_cpu referencia memoria (numeros OpCode.read_mem (1 ∷ 0 ∷ 4294967295 ∷ [])) ≡ falla)
unfolding buscar_valor_registro tp_sistemas_operativos.Base.strcmp_eq
ejecutar_read_mem-falla_example =
    ejecutar_read_mem-falla referencia memoria (cpu dos_respuestas) (codes "AX") (codes "BX")
      (codes "OK") [] 4294967295 9 refl (omega arith) (omega arith) refl (omega arith) (omega arith)
      (omega arith) (omega arith)

abbrev memoria_al_dia : Memoria
memoria_al_dia = record memoria {
  lista_de_procesos =
      record {
        pid = 1;
        base = 16;
        limite = 31;
        tids =
            record {
              tid = 0;
              ax = 20;
              bx = 4294967295;
              cx = 0;
              dx = 0;
              ex = 0;
              fx = 0;
              gx = 0;
              hx = 5;
              pc = 3;
              lista_de_instrucciones = codes "LOG AX" ∷ [];
            }
            ∷ [];
      }
      ∷ [];
}

recibir_guardado :
    atender_cpu referencia memoria
      (numeros OpCode.actualizar_contexto_de_ejecucion (1 ∷ 0 ∷ contexto (cpu [])))
    ≡ ok (memoria_al_dia, confirmacion, [])
unfolding atender_cpu tp_sistemas_operativos.Utils.Recepcion.recibir_operacion enviar_respuesta
    tp_sistemas_operativos.Utils.Bytes.bytes_de tp_sistemas_operativos.Utils.Bytes.leer_entero
    OpCode.valor tp_sistemas_operativos.Utils.Recepcion.recibir_una_cadena
    tp_sistemas_operativos.Utils.Bytes.leer_bytes enviar_paquete agregar_entero crear_paquete
    OpCode.de_valor recibir_contexto_y_actualizar deserializar_contexto actualizar_contexto
    obtener_proceso obtener_tid
recibir_guardado = refl

contexto-ida_y_vuelta_example :
    (contestado : List ℕ) × (atender_cpu referencia memoria_al_dia
        (numeros OpCode.obtener_contexto_de_ejecucion (1 ∷ 0 ∷ []))
      ≡ ok (memoria_al_dia, contestado, []))
    × (solicitar_contexto_memoria
          (record (cpu (0 ∷ [])) { pid = 1; tid = 0; de_memoria = contestado })
        ≡ ok (
            con_contexto
              (record (cpu (0 ∷ [])) {
                pid = 1;
                tid = 0;
                de_memoria = [];
                a_memoria = [] ++ numeros OpCode.obtener_contexto_de_ejecucion (1 ∷ 0 ∷ []);
              })
              (contexto_guardado (cpu []))))
contexto-ida_y_vuelta_example =
    contexto-ida_y_vuelta referencia memoria memoria_al_dia (cpu []) (cpu (0 ∷ [])) confirmacion []
      (
        omega arith,
        (
          omega arith,
          (
            omega arith,
            (
              omega arith,
              (
                omega arith,
                (
                  omega arith,
                  (
                    omega arith,
                    (
                      omega arith,
                      (omega arith, (omega arith, (omega arith, (omega arith, (omega arith, tt))))),
                    ),
                  ),
                ),
              ),
            ),
          ),
        ),
      )
      recibir_guardado

-- LOG AX, fetched from the memory: one turn of the cycle, with no interrupt for this thread.
abbrev linea : List ℕ
linea = enviar_respuesta (codes "LOG AX") OpCode.respuesta_instruccion

turno_log :
    turno (λ p. 0) (cpu linea)
    ≡ ok (record (cpu []) {
      pc = 4;
      a_memoria = numeros OpCode.obtener_instruccion (1 ∷ 0 ∷ 3 ∷ []);
    })
unfolding turno tp_sistemas_operativos.Utils.Recepcion.recibir_operacion enviar_respuesta
    tp_sistemas_operativos.Utils.Bytes.bytes_de tp_sistemas_operativos.Utils.Bytes.leer_entero
    tp_sistemas_operativos.Cpu.Mmu.esperar OpCode.valor
    tp_sistemas_operativos.Utils.Recepcion.recibir_una_cadena
    tp_sistemas_operativos.Utils.Bytes.leer_bytes tp_sistemas_operativos.Utils.Recepcion.cadena_c
    parsear_instruccion tp_sistemas_operativos.Base.strcmp_eq buscar_valor_registro
turno_log = refl

atoi_negativo : atoi (some (codes " -1")) ≡ ok 4294967295
unfolding atoi
atoi_negativo = refl
