-- ===== src/Kernel/Dispositivo.antt =====
-- An operation of the device from one end to the other: IO of the processor (cpu/src/mainCPU.c),
-- `ejecutar_hilo`, `io` and `atender_io` of kernel/src/mainkernel.c.
use tp_sistemas_operativos.Base.{
  ℕ, ◌+◌, ◌-◌, ◌<◌, ◌≡◌, refl, ap, ◌∙◌, true, false, arith, none, some, List, [], ◌∷◌, ◌++◌,
  ==_self, u32_mod,
}
use tp_sistemas_operativos.Base.Resultado.{Resultado, ok, deref, ◌>>=◌}
use tp_sistemas_operativos.Commons.{Listas}
use tp_sistemas_operativos.Cpu.Ejecucion.{syscall_io}
use tp_sistemas_operativos.Cpu.Registros.{Cpu}
use tp_sistemas_operativos.Kernel.Colas.{
  usamos_multicolas, encolar, puede_correr, hilo_esperando_mutex, transicion_a_ready, listo,
}
use tp_sistemas_operativos.Kernel.Estado.{
  Kernel, Tcb, Pcb, Entorno, Estado, SolicitudIo, actualizar, con_hilo, pid_del_hilo,
}
use tp_sistemas_operativos.Kernel.Logra.{Logra, Logra-luego, Logra-ok, Logra-weaken}
use tp_sistemas_operativos.Kernel.Planificacion.{
  replanificando, atender_motivo, atender_respuesta, atender_io, atender_io_fin,
}
use tp_sistemas_operativos.Kernel.Syscalls.{de_la_cpu, hilo_actual, bloquear_actual, espera_io, io}
use tp_sistemas_operativos.Utils.OpCode.{OpCode, de_valor-valor}
use tp_sistemas_operativos.Utils.Recepcion.{recibir_un_entero}
use tp_sistemas_operativos.Utils.Mensajes.{
  bytes_de_todos, un_entero-cuerpo, recibir_operacion-enteros,
}
use tp_sistemas_operativos.Utils.Viaje.{cuerpo}

module _ (c : Listas) (e : Entorno) where
  pub puede_correr-libre :
      (t : Tcb)
      → t.mutex_en_espera ≡ []
      → t.bloqueado_por_join ≡ false
      → t.bloqueado_por_io ≡ false
      → puede_correr c e t ≡ true
  unfolding puede_correr hilo_esperando_mutex
  puede_correr-libre t espera join aparato = rw (
    puede_correr,
    hilo_esperando_mutex,
    c.list_is_empty_lem t.mutex_en_espera,
    espera,
    join,
    aparato,
  )

  -- A thread that waits for nothing is put at the end of READY, and the planner is told.
  transicion_a_ready-libre :
      (k : Kernel) (a : ℕ) (t : Tcb)
      → usamos_multicolas e ≡ false
      → k.hilos a ≡ some t
      → puede_correr c e t ≡ true
      → transicion_a_ready c e k a
        ≡ ok (
          record k {
            hilos_en_ready = k.hilos_en_ready ++ (a ∷ []);
            hilos = actualizar k.hilos a (some (listo t));
            sem_hilo_en_ready = k.sem_hilo_en_ready + 1;
          },
          true,
        )
  unfolding transicion_a_ready encolar con_hilo
  transicion_a_ready-libre k a t otro ht libre = rw (
    transicion_a_ready,
    ht,
    libre,
    encolar,
    otro,
    c.list_add_lem k.hilos_en_ready a,
    con_hilo,
    ht,
  )

  io-ok :
      (k : Kernel) (a tiempo : ℕ) (t : Tcb) (padre : Pcb) (resto : List ℕ)
      → recibir_un_entero k.socket_cpu_dispatch ≡ ok (tiempo, resto)
      → k.hilo_en_exec ≡ some a
      → k.hilos a ≡ some t
      → k.procesos t.proceso_padre ≡ some padre
      → io c e k
        ≡ ok (record k {
          socket_cpu_dispatch = resto;
          hilos_en_block = k.hilos_en_block ++ (a ∷ []);
          hilos =
              actualizar k.hilos a
                (some (record (espera_io t) { estado_del_hilo = Estado.blocked }));
          dispositivo_io =
              k.dispositivo_io ++ ((record { hilo_atendido = a; tiempo_bloqueado = tiempo }) ∷ []);
          sem_io = k.sem_io + 1;
        })
  unfolding io de_la_cpu hilo_actual pid_del_hilo bloquear_actual con_hilo
  io-ok k a tiempo t padre resto llega exec ht hp = rw (
    io,
    de_la_cpu,
    llega,
    hilo_actual,
    exec,
    ht,
    pid_del_hilo,
    hp,
    bloquear_actual,
    c.list_add_lem k.hilos_en_block a,
    con_hilo,
    ht,
    c.list_add_lem k.dispositivo_io (record { hilo_atendido = a; tiempo_bloqueado = tiempo }),
  )

  -- The processor's message of IO makes the kernel serve it, and plan again.
  atender_respuesta-io :
      (k : Kernel) (q : Cpu) (tiempo : ℕ) (resto : List ℕ)
      → q.a_kernel ≡ []
      → k.socket_cpu_dispatch ≡ (syscall_io q tiempo).a_kernel ++ resto
      → atender_respuesta c e k ≡ (
          io c e (record k { socket_cpu_dispatch = cuerpo (bytes_de_todos (tiempo ∷ [])) ++ resto })
          >>= (λ k'. ok (replanificando true k')))
  unfolding atender_respuesta atender_motivo de_la_cpu syscall_io
  atender_respuesta-io k q tiempo resto nada llega = rw (
    atender_respuesta,
    de_la_cpu,
    llega,
    nada,
    recibir_operacion-enteros OpCode.io (tiempo ∷ []) resto (omega arith),
    de_valor-valor OpCode.io,
  )

  atender_io-unica :
      (k : Kernel) (s : SolicitudIo)
      → k.dispositivo_io ≡ s ∷ []
      → atender_io c e k
        ≡ ok (record k { sem_io = k.sem_io - 1; dispositivo_io = []; solicitud_io = some s })
  unfolding atender_io
  atender_io-unica k s una = rw (atender_io, c.list_remove_lem k.dispositivo_io 0, una)

  atender_io_fin-libre :
      (k : Kernel) (s : SolicitudIo) (t : Tcb) (padre : Pcb)
      → usamos_multicolas e ≡ false
      → k.solicitud_io ≡ some s
      → k.hilos s.hilo_atendido ≡ some t
      → k.procesos t.proceso_padre ≡ some padre
      → t.mutex_en_espera ≡ []
      → t.bloqueado_por_join ≡ false
      → Logra
          (λ k'.
            (k'.hilos_en_ready ≡ k.hilos_en_ready ++ (s.hilo_atendido ∷ []))
            × (k'.sem_hilo_en_ready ≡ k.sem_hilo_en_ready + 1)
            × (k'.dispositivo_io ≡ k.dispositivo_io)
            × (k'.sem_io ≡ k.sem_io)
            × (k'.socket_cpu_dispatch ≡ k.socket_cpu_dispatch)
            × (k'.hilos_en_block ≡ k.hilos_en_block))
          (atender_io_fin c e k)
  unfolding atender_io_fin con_hilo pid_del_hilo
  atender_io_fin-libre k s t padre otro solicitud ht hp espera join =
      let a = s.hilo_atendido in
      let u : Tcb = record t { bloqueado_por_io = false } in
      let k1 : Kernel = record k { solicitud_io = none; hilos = actualizar k.hilos a (some u) } in
      Logra-luego (deref k.solicitud_io) s _ (ap deref solicitud) (
        Logra-luego (con_hilo (record k { solicitud_io = none }) a _) k1 _ (rw ht) (
          Logra-luego (deref (k1.hilos a)) u _ (rw (==_self a)) (
            Logra-luego (pid_del_hilo k1 u) padre.pid _ (rw hp) (
              Logra-luego (transicion_a_ready c e k1 a) _ _
                (transicion_a_ready-libre k1 a u otro (rw (==_self a))
                  (puede_correr-libre u espera join refl))
                (Logra-ok _ (refl, refl, refl, refl, refl, refl))))))

  -- With no queues of many levels, a thread of a process that asks for an operation of the device, of a time
  -- below 2 ^ 32, when the device has nothing else to do and the thread waits for nothing else, is back in
  -- READY when the operation has ended: the message of the processor, `io`, and both halves of `atender_io`
  -- end with a value, and the planner is told once. The thread is still in `hilosEnBlock`.
  pub syscall_io-atender_io_fin :
      (k : Kernel) (q : Cpu) (a tiempo : ℕ) (t : Tcb) (padre : Pcb) (resto : List ℕ)
      → usamos_multicolas e ≡ false
      → tiempo < u32_mod
      → q.a_kernel ≡ []
      → k.socket_cpu_dispatch ≡ (syscall_io q tiempo).a_kernel ++ resto
      → k.hilo_en_exec ≡ some a
      → k.hilos a ≡ some t
      → k.procesos t.proceso_padre ≡ some padre
      → t.mutex_en_espera ≡ []
      → t.bloqueado_por_join ≡ false
      → k.dispositivo_io ≡ []
      → Logra
          (λ k'.
            (k'.hilos_en_ready ≡ k.hilos_en_ready ++ (a ∷ []))
            × (k'.sem_hilo_en_ready ≡ k.sem_hilo_en_ready + 1)
            × (k'.dispositivo_io ≡ [])
            × (k'.sem_io ≡ k.sem_io)
            × (k'.socket_cpu_dispatch ≡ resto)
            × (k'.hilos_en_block ≡ k.hilos_en_block ++ (a ∷ [])))
          (atender_respuesta c e k >>= (λ k1. atender_io c e k1 >>= atender_io_fin c e))
  syscall_io-atender_io_fin k q a tiempo t padre resto otro chico nada llega exec ht hp espera join
        libre =
      let s : SolicitudIo = record { hilo_atendido = a; tiempo_bloqueado = tiempo } in
      let sirve =
        io-ok (record k { socket_cpu_dispatch = cuerpo (bytes_de_todos (tiempo ∷ [])) ++ resto }) a
          tiempo t padre resto
          (un_entero-cuerpo tiempo tiempo tiempo tiempo chico chico chico chico resto) exec ht hp in
      Logra-luego (atender_respuesta c e k) _ _
        (atender_respuesta-io k q tiempo resto nada llega
          ∙ ap (λ (r : Resultado Kernel). r >>= (λ k'. ok (replanificando true k'))) sirve)
        (Logra-luego (atender_io c e _) _ _ (atender_io-unica _ s (rw libre)) (
          Logra-weaken
            (atender_io_fin-libre _ s (record (espera_io t) { estado_del_hilo = Estado.blocked })
              padre otro refl (rw (==_self a)) hp espera join)
            (λ k' (r, sr, d, si, so, b). (r, sr, d, si ∙ omega arith, so, b))))
