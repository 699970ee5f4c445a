-- ===== src/Kernel/Desalojo.antt =====
-- The end of a quantum, from the counter of the kernel to the queue of the thread:
-- `controlar_tiempo_de_ejecucion` and `ejecutar_hilo` of kernel/src/mainkernel.c, `interruptProceso` and
-- `check_interrupt` of cpu/src/mainCPU.c.
use tp_sistemas_operativos.Base.{
  ℕ, ◌+◌, ◌<◌, ◌≡◌, refl, sym, ap, ◌∙◌, true, false, arith, some, List, [], ◌∷◌, ◌++◌, ==_self,
  u32_mod, find?, modify_p, find?-modify_p_self, length, append-nil,
}
use tp_sistemas_operativos.Base.Resultado.{Resultado, ok, deref, ◌>>=◌}
use tp_sistemas_operativos.Commons.{Listas}
use tp_sistemas_operativos.Cpu.Ejecucion.{check_interrupt, interrumpir}
use tp_sistemas_operativos.Cpu.Guardado.{pedido_de_guardar, guardada}
use tp_sistemas_operativos.Cpu.Interrupcion.{
  con_interrupcion, interrumpir-numeros, check_interrupt-mismo_hilo,
}
use tp_sistemas_operativos.Cpu.Mmu.{numeros}
use tp_sistemas_operativos.Cpu.Registros.{Cpu}
use tp_sistemas_operativos.Kernel.Colas.{
  usamos_multicolas, tiene_prioridad, encolar, puede_correr, obtener_cola_multinivel,
  transicion_a_ready, listo,
}
use tp_sistemas_operativos.Kernel.Dispositivo.{puede_correr-libre}
use tp_sistemas_operativos.Kernel.Estado.{
  Kernel, Tcb, Pcb, Cola, Entorno, actualizar, con_hilo, pid_del_hilo,
}
use tp_sistemas_operativos.Kernel.Planificacion.{
  marcar_fin, controlar_tiempo_de_ejecucion, atender_motivo, atender_respuesta,
}
use tp_sistemas_operativos.Kernel.Syscalls.{de_la_cpu}
use tp_sistemas_operativos.Utils.OpCode.{OpCode, de_valor-valor}
use tp_sistemas_operativos.Utils.Mensajes.{un_entero-cuerpo, recibir_operacion-enteros}
use tp_sistemas_operativos.Utils.Recepcion.{Lector, recibir_operacion, recibir_un_entero}
use tp_sistemas_operativos.Utils.Paquete.{enviar_respuesta}

>>=-paso {ℓ κ} :
    {A : Type ℓ} {B : Type κ} (m : Resultado A) (a : A) (f : A → Resultado B)
    → m ≡ ok a
    → (m >>= f) ≡ f a
>>=-paso m a f h = ap (λ r. r >>= f) h

de_la_cpu-lee :
    {A : Type 0} (k : Kernel) (lector : Lector A) (v : A) (s : List ℕ)
    → lector k.socket_cpu_dispatch ≡ ok (v, s)
    → de_la_cpu k lector ≡ ok (record k { socket_cpu_dispatch = s }, v)
unfolding de_la_cpu
de_la_cpu-lee k lector v s h = rw h

module _ (c : Listas) (e : Entorno) (cmn : usamos_multicolas e ≡ true) where
  abbrev con_uno_mas : ℕ → Cola → Cola
  con_uno_mas a q = record q { cola_multinivel = c.list_add q.cola_multinivel a }

  transicion_a_ready-cola :
      (k : Kernel) (a : ℕ) (t : Tcb) (q : Cola)
      → k.hilos a ≡ some t
      → puede_correr c e t ≡ true
      → find? (tiene_prioridad t.prioridad) k.colas_de_ready ≡ some q
      → transicion_a_ready c e k a
        ≡ ok (
          record k {
            colas_de_ready =
                modify_p (tiene_prioridad t.prioridad) (con_uno_mas a) k.colas_de_ready;
            hilos = actualizar k.hilos a (some (listo t));
            sem_hilo_en_ready = k.sem_hilo_en_ready + 1;
          },
          true,
        )
  unfolding transicion_a_ready encolar obtener_cola_multinivel con_hilo
  transicion_a_ready-cola k a t q ht libre hay = rw (
    transicion_a_ready,
    ht,
    libre,
    encolar,
    cmn,
    obtener_cola_multinivel,
    c.list_find_lem k.colas_de_ready (tiene_prioridad t.prioridad),
    hay,
    con_hilo,
    ht,
  )

  -- The counter of the thread that runs finds it running.
  controlar_tiempo_de_ejecucion-actual :
      (k : Kernel) (a : ℕ) (t : Tcb) (p : Pcb)
      → k.hilo_en_exec ≡ some a
      → k.hilos a ≡ some t
      → k.procesos t.proceso_padre ≡ some p
      → t.clock_contando ≡ true
      → controlar_tiempo_de_ejecucion c e k (t.tid, p.pid)
        ≡ ok (record k {
          hilos = actualizar k.hilos a (some (record t { fin_deq = 1 }));
          a_interrupt = k.a_interrupt ++ numeros OpCode.fin_de_quantum (p.pid ∷ t.tid ∷ []);
        })
  unfolding controlar_tiempo_de_ejecucion marcar_fin con_hilo pid_del_hilo
  controlar_tiempo_de_ejecucion-actual k a t p exec ht hp cuenta =
      let u : Tcb = record t { fin_deq = 1 } in
      let k1 : Kernel = record k { hilos = actualizar k.hilos a (some u) } in
      ap (marcar_fin c e k (t.tid, p.pid)) exec
      ∙ >>=-paso (con_hilo k a (λ t. record t { fin_deq = 1 })) k1 _ (rw ht)
      ∙ >>=-paso (deref (k1.hilos a)) u _ (rw (==_self a))
      ∙ rw (==_self t.tid)
          (>>=-paso (pid_del_hilo k1 u) p.pid _ (rw hp) ∙ rw (==_self p.pid, cuenta))

  -- The kernel takes the thread off the processor when that tells it the end of the quantum.
  atender_respuesta-fin_de_quantum :
      (k : Kernel) (a : ℕ) (t : Tcb) (q : Cola)
      → t.tid < u32_mod
      → k.socket_cpu_dispatch ≡ numeros OpCode.fin_de_quantum (t.tid ∷ []) ++ []
      → k.hilo_en_exec ≡ some a
      → k.hilos a ≡ some t
      → puede_correr c e t ≡ true
      → find? (tiene_prioridad t.prioridad) k.colas_de_ready ≡ some q
      → atender_respuesta c e k
        ≡ ok (record k {
          socket_cpu_dispatch = [];
          replanificar = true;
          colas_de_ready = modify_p (tiene_prioridad t.prioridad) (con_uno_mas a) k.colas_de_ready;
          hilos = actualizar k.hilos a (some (listo t));
          sem_hilo_en_ready = k.sem_hilo_en_ready + 1;
        })
  unfolding atender_respuesta atender_motivo de_la_cpu
  atender_respuesta-fin_de_quantum k a t q chico llega exec ht libre hay =
      let k2 : Kernel = record k { socket_cpu_dispatch = [] } in
      >>=-paso (de_la_cpu k recibir_operacion) _ _ (
        de_la_cpu-lee k recibir_operacion _ _ (
          ap recibir_operacion llega
          ∙ recibir_operacion-enteros OpCode.fin_de_quantum (t.tid ∷ []) [] (omega arith)))
      ∙ ap (atender_motivo c e _) (de_valor-valor OpCode.fin_de_quantum)
      ∙ >>=-paso (de_la_cpu _ recibir_un_entero) _ _ (
          de_la_cpu-lee _ recibir_un_entero _ _
            (un_entero-cuerpo t.tid t.tid t.tid t.tid chico chico chico chico []))
      ∙ >>=-paso (deref k2.hilo_en_exec) a _ (ap deref exec)
      ∙ >>=-paso (transicion_a_ready c e k2 a) _ _ (transicion_a_ready-cola k2 a t q ht libre hay)

  -- Under CMN, when the quantum of the thread that runs is over, the kernel's message reaches the processor,
  -- which sends the context of the thread to the memory, stops the cycle of instructions and forgets the
  -- interrupt; its answer makes the kernel put the thread at the end of the queue of its priority, post its
  -- semaphore once, and plan again. The thread runs in the processor under its ids, which are below 2 ^ 32,
  -- its counter is on, it waits for nothing, and there is a queue of its priority; no other message is on
  -- its way, and the memory's answer to the context, shorter than 2 ^ 31 - 5 bytes, is in the socket.
  pub controlar_tiempo_de_ejecucion-atender_respuesta :
      (k : Kernel) (q : Cpu) (a : ℕ) (t : Tcb) (p : Pcb) (cola : Cola) (texto resto : List ℕ)
      → k.hilo_en_exec ≡ some a
      → k.hilos a ≡ some t
      → k.procesos t.proceso_padre ≡ some p
      → t.clock_contando ≡ true
      → t.mutex_en_espera ≡ []
      → t.bloqueado_por_join ≡ false
      → t.bloqueado_por_io ≡ false
      → find? (tiene_prioridad t.prioridad) k.colas_de_ready ≡ some cola
      → p.pid ≡ q.pid
      → t.tid ≡ q.tid
      → q.pid < u32_mod
      → q.tid < u32_mod
      → k.a_interrupt ≡ []
      → q.a_kernel ≡ []
      → length texto + 5 < 2147483648
      → q.de_memoria ≡ enviar_respuesta texto OpCode.contexto_actualizado ++ resto
      → (k1 : Kernel) × (q1 : Cpu) × (q2 : Cpu) × (k2 : Kernel) × (controlar_tiempo_de_ejecucion c e
            k
            (t.tid, p.pid)
          ≡ ok k1)
        × (interrumpir q k1.a_interrupt ≡ ok (q1, []))
        × (check_interrupt q1 ≡ ok q2)
        × (q2.a_memoria ≡ q.a_memoria ++ pedido_de_guardar q)
        × (q2.seguir_ejecutando ≡ false)
        × (q2.pid_interrupt ≡ 4294967295)
        × (q2.tid_interrupt ≡ 4294967295)
        × (atender_respuesta c e (record k1 { socket_cpu_dispatch = q2.a_kernel }) ≡ ok k2)
        × (find? (tiene_prioridad t.prioridad) k2.colas_de_ready
            ≡ some (record cola { cola_multinivel = cola.cola_multinivel ++ (a ∷ []) }))
        × (k2.sem_hilo_en_ready ≡ k.sem_hilo_en_ready + 1)
        × (k2.replanificar ≡ true)
  controlar_tiempo_de_ejecucion-atender_respuesta k q a t p cola texto resto exec ht hp cuenta
        espera join aparato hay pid tid hpid htid nada nada' corto contesta =
      let u : Tcb = record t { fin_deq = 1 } in
      let k1 : Kernel = record k {
        hilos = actualizar k.hilos a (some u);
        a_interrupt = k.a_interrupt ++ numeros OpCode.fin_de_quantum (p.pid ∷ t.tid ∷ []);
      } in
      let q2 : Cpu = record (guardada q resto) {
        a_kernel = q.a_kernel ++ numeros OpCode.fin_de_quantum (q.tid ∷ []);
        seguir_ejecutando = false;
        pid_interrupt = 4294967295;
        tid_interrupt = 4294967295;
      } in
      let aviso : k1.a_interrupt ≡ numeros OpCode.fin_de_quantum (q.pid ∷ q.tid ∷ []) ++ [] =
        rw (nada, pid, tid) (sym (append-nil _)) in
      let dicho : q2.a_kernel ≡ numeros OpCode.fin_de_quantum (t.tid ∷ []) ++ [] =
        rw (nada', tid) (sym (append-nil _)) in
      (
        k1,
        con_interrupcion q q.pid q.tid,
        q2,
        _,
        controlar_tiempo_de_ejecucion-actual k a t p exec ht hp cuenta,
        ap (interrumpir q) aviso ∙ interrumpir-numeros q q.pid q.tid [] hpid htid,
        check_interrupt-mismo_hilo q texto resto corto contesta,
        refl,
        refl,
        refl,
        refl,
        atender_respuesta-fin_de_quantum (record k1 { socket_cpu_dispatch = q2.a_kernel }) a u cola
            (rw tid htid) dicho exec (rw (==_self a)) (puede_correr-libre c e u espera join aparato)
            hay,
        find?-modify_p_self (tiene_prioridad t.prioridad) (tiene_prioridad t.prioridad)
              (con_uno_mas a) (λ r. refl) k.colas_de_ready cola hay
            ∙ rw (c.list_add_lem cola.cola_multinivel a),
        refl,
        refl,
      )
