-- ===== src/Cpu/Ejecucion.antt =====
-- cpu/src/mainCPU.c: the system calls, the execution of an instruction, the interrupts, and one turn
-- of the cycle of instructions.
use tp_sistemas_operativos.Base.{
  ℕ, false, ◌&&◌, Option, List, [], ◌∷◌, codes, strcmp_eq, ◌==◌, if◌then◌else◌,
}
use tp_sistemas_operativos.Base.Resultado.{Resultado, ok, ◌>>=◌, deref}
use tp_sistemas_operativos.Cpu.Registros.{
  Cpu, avanzar, buscar_valor_registro, ejecutar_set, ejecutar_sum, ejecutar_sub, ejecutar_jnz,
}
use tp_sistemas_operativos.Cpu.Instruccion.{Instruccion, parsear_instruccion, atoi}
use tp_sistemas_operativos.Cpu.Mmu.{
  numeros, decir_a_memoria, decir_al_kernel, esperar, actualizar_contexto_y_enviar,
  ejecutar_read_mem, ejecutar_write_mem,
}
use tp_sistemas_operativos.Utils.OpCode.{OpCode}
use tp_sistemas_operativos.Utils.Paquete.{
  crear_paquete, agregar_entero, agregar_cadena, enviar_paquete,
}
use tp_sistemas_operativos.Utils.Recepcion.{
  recibir_operacion, recibir_dos_enteros, recibir_una_cadena, cadena_c,
}

-- A packet of a code and a string, as it is sent.
abbrev pub texto : OpCode → List ℕ → List ℕ
texto codigo cadena = enviar_paquete (agregar_cadena (crear_paquete codigo) cadena)

unfoldable pub syscall_dump_memory : Cpu → Cpu
syscall_dump_memory k = decir_al_kernel k (texto OpCode.dump_memory (codes "777"))

unfoldable pub syscall_io : Cpu → ℕ → Cpu
syscall_io k tiempo = decir_al_kernel k (numeros OpCode.io (tiempo ∷ []))

unfoldable pub syscall_process_create : Cpu → List ℕ → ℕ → ℕ → Cpu
syscall_process_create k archivo tamanio prioridad = decir_al_kernel k (
    enviar_paquete (
      agregar_cadena
        (agregar_entero (agregar_entero (crear_paquete OpCode.process_create) tamanio) prioridad)
        archivo))

unfoldable pub syscall_thread_create : Cpu → List ℕ → ℕ → Cpu
syscall_thread_create k archivo prioridad = decir_al_kernel k (
    enviar_paquete
      (agregar_entero (agregar_cadena (crear_paquete OpCode.thread_create) archivo) prioridad))

unfoldable pub syscall_thread_join : Cpu → ℕ → Cpu
syscall_thread_join k tid = decir_al_kernel k (numeros OpCode.thread_join (tid ∷ []))

unfoldable pub syscall_thread_cancel : Cpu → ℕ → Cpu
syscall_thread_cancel k tid = decir_al_kernel k (numeros OpCode.thread_cancel (tid ∷ []))

unfoldable pub syscall_mutex_create : Cpu → List ℕ → Cpu
syscall_mutex_create k recurso = decir_al_kernel k (texto OpCode.mutex_create recurso)

unfoldable pub syscall_mutex_lock : Cpu → List ℕ → Cpu
syscall_mutex_lock k recurso = decir_al_kernel k (texto OpCode.mutex_lock recurso)

unfoldable pub syscall_mutex_unlock : Cpu → List ℕ → Cpu
syscall_mutex_unlock k recurso = decir_al_kernel k (texto OpCode.mutex_unlock recurso)

unfoldable pub syscall_thread_exit : Cpu → Cpu
syscall_thread_exit k = decir_al_kernel k (texto OpCode.thread_exit (codes "EXIT"))

unfoldable pub syscall_process_exit : Cpu → Cpu
syscall_process_exit k = decir_al_kernel k (texto OpCode.process_exit (codes "EXIT"))

-- A branch of a system call: `pc++`, the context to the memory, the call, and the end of the cycle.
unfoldable pub llamar : Cpu → (Cpu → Resultado Cpu) → Resultado Cpu
unfolding actualizar_contexto_y_enviar
llamar k syscall = do
  k' ← actualizar_contexto_y_enviar (avanzar k)
  k'' ← syscall k'
  ok (record k'' { seguir_ejecutando = false })

unfoldable pub check_interrupt : Cpu → Resultado Cpu
check_interrupt k =
    if (k.pid_interrupt == k.pid) && (k.tid_interrupt == k.tid)
    then (do
      k' ← actualizar_contexto_y_enviar (record k { seguir_ejecutando = false })
      ok (record (decir_al_kernel k' (numeros OpCode.fin_de_quantum (k.tid_interrupt ∷ []))) {
        pid_interrupt = 4294967295;
        tid_interrupt = 4294967295;
      }))
    else ok k

-- `puntero` gives the low 32 bits of the address of a parameter, which is what THREAD_CANCEL passes.
module _ (puntero : Option (List ℕ) → ℕ) where
  -- The chain of `ejecutar_instruccion` on the code.
  unfoldable pub ejecutar_codigo : Cpu → List ℕ → Instruccion → Resultado Cpu
  ejecutar_codigo k codigo i =
      if strcmp_eq codigo (codes "SET")
      then (do n ← atoi i.par2; registro ← deref i.par1; ok (avanzar (ejecutar_set k registro n)))
      else if strcmp_eq codigo (codes "SUM")
      then (do
        destino ← deref i.par1
        origen ← deref i.par2
        k' ← ejecutar_sum k destino origen
        ok (avanzar k'))
      else if strcmp_eq codigo (codes "SUB")
      then (do
        destino ← deref i.par1
        origen ← deref i.par2
        k' ← ejecutar_sub k destino origen
        ok (avanzar k'))
      else if strcmp_eq codigo (codes "JNZ")
      then (do n ← atoi i.par2; registro ← deref i.par1; ok (ejecutar_jnz k registro n))
      else if strcmp_eq codigo (codes "READ_MEM")
      then (do datos ← deref i.par1; direccion ← deref i.par2; ejecutar_read_mem k datos direccion)
      else if strcmp_eq codigo (codes "WRITE_MEM")
      then (do direccion ← deref i.par1; datos ← deref i.par2; ejecutar_write_mem k direccion datos)
      else if strcmp_eq codigo (codes "DUMP_MEMORY")
      then llamar k (λ k'. ok (syscall_dump_memory k'))
      else if strcmp_eq codigo (codes "IO")
      then llamar k (λ k'. do tiempo ← atoi i.par1; ok (syscall_io k' tiempo))
      else if strcmp_eq codigo (codes "PROCESS_CREATE")
      then llamar k (λ k'. do
        prioridad ← atoi i.par3
        tamanio ← atoi i.par2
        archivo ← deref i.par1
        ok (syscall_process_create k' archivo tamanio prioridad))
      else if strcmp_eq codigo (codes "THREAD_CREATE")
      then llamar k (λ k'. do
        prioridad ← atoi i.par2
        archivo ← deref i.par1
        ok (syscall_thread_create k' archivo prioridad))
      else if strcmp_eq codigo (codes "THREAD_JOIN")
      then llamar k (λ k'. do tid ← atoi i.par1; ok (syscall_thread_join k' tid))
      else if strcmp_eq codigo (codes "THREAD_CANCEL")
      then llamar k (λ k'. ok (syscall_thread_cancel k' (puntero i.par1)))
      else if strcmp_eq codigo (codes "PROCESS_EXIT")
      then llamar k (λ k'. ok (syscall_process_exit k'))
      else if strcmp_eq codigo (codes "MUTEX_CREATE")
      then llamar k (λ k'. do recurso ← deref i.par1; ok (syscall_mutex_create k' recurso))
      else if strcmp_eq codigo (codes "MUTEX_LOCK")
      then llamar k (λ k'. do recurso ← deref i.par1; ok (syscall_mutex_lock k' recurso))
      else if strcmp_eq codigo (codes "MUTEX_UNLOCK")
      then llamar k (λ k'. do recurso ← deref i.par1; ok (syscall_mutex_unlock k' recurso))
      else if strcmp_eq codigo (codes "THREAD_EXIT")
      then llamar k (λ k'. ok (syscall_thread_exit k'))
      else if strcmp_eq codigo (codes "LOG")
      then (do registro ← deref i.par1; valor ← buscar_valor_registro k registro; ok (avanzar k))
      else ok k

  unfoldable pub ejecutar_instruccion : Cpu → Instruccion → Resultado Cpu
  unfolding ejecutar_codigo
  ejecutar_instruccion k i = do codigo ← deref i.codigo; ejecutar_codigo k codigo i

  -- The body of the `while` of `ejecutar_ciclo_instruccion`.
  unfoldable pub turno : Cpu → Resultado Cpu
  unfolding ejecutar_instruccion check_interrupt
  turno k = do
    let dicho = decir_a_memoria k (numeros OpCode.obtener_instruccion (k.pid ∷ k.tid ∷ k.pc ∷ []))
    (codigo, s) ← recibir_operacion k.de_memoria
    s1 ← esperar OpCode.respuesta_instruccion codigo s
    (respuesta, s2) ← recibir_una_cadena s1
    linea ← cadena_c respuesta
    k' ← ejecutar_instruccion (record dicho { de_memoria = s2 }) (parsear_instruccion linea)
    if k'.seguir_ejecutando then check_interrupt k' else ok k'

-- The body of the `while` of `interruptProceso`, on the bytes of the interrupt socket.
unfoldable pub interrumpir : Cpu → List ℕ → Resultado (Cpu × List ℕ)
unfolding esperar
interrumpir k socket = do
  (codigo, s) ← recibir_operacion socket
  s1 ← esperar OpCode.fin_de_quantum codigo s
  ((copia_pid, copia_tid), s2) ← recibir_dos_enteros s1
  ok (record k { pid_interrupt = copia_pid; tid_interrupt = copia_tid }, s2)
