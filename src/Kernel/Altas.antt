-- ===== src/Kernel/Altas.antt =====
-- How processes and threads come and go: `crear_pcb`, `crear_tcb`, `liberar_pcb` and `liberar_tcb` of
-- kernel/src/pcbYtcb.c, and `iniciar_proceso` of kernel/src/mainkernel.c.
use tp_sistemas_operativos.Base.{
  ℕ, ◌+◌, false, Option, none, some, List, [], ◌∷◌, add32, if◌then◌else◌,
}
use tp_sistemas_operativos.Base.Resultado.{Resultado, ok, ◌>>=◌, deref}
use tp_sistemas_operativos.Commons.{Listas}
use tp_sistemas_operativos.Kernel.Avisos.{notificar_creacion_hilo}
use tp_sistemas_operativos.Kernel.Colas.{crear_cola_ready}
use tp_sistemas_operativos.Kernel.Estado.{
  Kernel, Pcb, Tcb, Entorno, Estado, actualizar, con_hilo, con_proceso, pid_del_hilo, es_el_hilo,
  leido,
}

-- `malloc` and the first writes. The archive, the size and the priority are written by the caller.
unfoldable pub crear_pcb : Kernel → Kernel × ℕ
crear_pcb k = (
  record k {
    procesos = actualizar k.procesos k.siguiente_direccion (
        some (record {
          pid = k.siguiente_pid;
          archivo_de_pseudocodigo = [];
          lista_de_hilos_del_proceso = [];
          lista_de_mutex_del_proceso = [];
          estado_del_proceso = Estado.sin_estado;
          tamanio = 0;
          siguiente_tid = 0;
          siguiente_mid = 0;
          prioridad_tid0 = 0;
        }));
    siguiente_direccion = k.siguiente_direccion + 1;
    siguiente_pid = add32 k.siguiente_pid 1;
  },
  k.siguiente_direccion,
)

-- The thread that `crear_tcb` fills in.
abbrev pub hilo_nuevo : ℕ → ℕ → ℕ → List ℕ → Tcb
hilo_nuevo p tid prioridad archivo = record {
  tid = tid;
  archivo_de_pseudocodigo = archivo;
  proceso_padre = p;
  estado_del_hilo = Estado.new;
  prioridad = prioridad;
  hilo_bloqueado_por_join = none;
  mutex_en_espera = [];
  bloqueado_por_join = false;
  bloqueado_por_io = false;
  fin_deq = 0;
  clock_contando = false;
}

-- The state after the `malloc` of a thread, and what its process then holds.
abbrev pub con_hilo_nuevo : Kernel → ℕ → ℕ → ℕ → List ℕ → Kernel
con_hilo_nuevo k p tid prioridad archivo = record k {
  hilos = actualizar k.hilos k.siguiente_direccion (some (hilo_nuevo p tid prioridad archivo));
  siguiente_direccion = k.siguiente_direccion + 1;
}

-- What `iniciar_proceso` writes in a new process.
abbrev pub proceso_iniciado : List ℕ → ℕ → ℕ → Pcb → Pcb
proceso_iniciado ruta tamanio prioridad q = record q {
  archivo_de_pseudocodigo = ruta;
  tamanio = tamanio;
  prioridad_tid0 = prioridad;
  estado_del_proceso = Estado.new;
}

-- `liberar_mutex` on each element.
unfoldable pub liberar_mutexes : Kernel → List ℕ → Resultado Kernel
liberar_mutexes k [] = ok k
liberar_mutexes k (m ∷ ms) = do
  elMutex ← deref (k.recursos m)
  liberar_mutexes (record k { recursos = actualizar k.recursos m none }) ms

unfoldable pub liberar_pcb : Kernel → ℕ → Resultado Kernel
unfolding liberar_mutexes
liberar_pcb k p = do
  proceso ← deref (k.procesos p)
  k' ← liberar_mutexes k proceso.lista_de_mutex_del_proceso
  ok (record k' { procesos = actualizar k'.procesos p none })

module _ (c : Listas) (e : Entorno) where
  open c use {list_add, list_find, list_remove_by_condition}

  -- NULL where the memory refuses the thread, which stays in the list of its process.
  -- The process with one thread more.
  abbrev pub con_hilo_anotado : ℕ → Pcb → Pcb
  con_hilo_anotado a q = record q {
    lista_de_hilos_del_proceso = list_add q.lista_de_hilos_del_proceso a;
    siguiente_tid = add32 q.siguiente_tid 1;
  }

  unfoldable pub crear_tcb : Kernel → ℕ → ℕ → List ℕ → Resultado (Kernel × Option ℕ)
  unfolding con_proceso
  crear_tcb k p prioridad archivo = do
    proceso ← deref (k.procesos p)
    let a = k.siguiente_direccion
    let k1 = con_hilo_nuevo k p proceso.siguiente_tid prioridad archivo
    k2 ← con_proceso k1 p (con_hilo_anotado a)
    (k3, pudo) ← notificar_creacion_hilo e k2 a
    ok (
        if pudo
        then (
          record k3 {
            lista_de_procesos_en_sistema = list_add k3.lista_de_procesos_en_sistema a;
            colas_de_ready = crear_cola_ready c e k3.colas_de_ready prioridad;
          },
          some a,
        )
        else (k3, none))

  -- The removal from the list of the process.
  unfoldable pub olvidar_hilo : Kernel → ℕ → ℕ → ℕ → Option ℕ → Resultado Kernel
  unfolding con_proceso es_el_hilo
  olvidar_hilo k p tid pid none = ok k
  olvidar_hilo k p tid pid (some b) = con_proceso k p (λ q. record q {
    lista_de_hilos_del_proceso =
        (list_remove_by_condition q.lista_de_hilos_del_proceso (es_el_hilo k tid pid)).1;
  })

  -- The search before the removal only tells whether there is something to remove.
  unfoldable pub liberar_tcb : Kernel → ℕ → Resultado Kernel
  unfolding pid_del_hilo con_hilo olvidar_hilo es_el_hilo leido
  liberar_tcb k a = do
    t ← deref (k.hilos a)
    pid ← pid_del_hilo k t
    k1 ← con_hilo k a (λ t. record t { estado_del_hilo = Estado.terminado })
    padre ← deref (k1.procesos t.proceso_padre)
    hallado ← leido k1 (list_find padre.lista_de_hilos_del_proceso (es_el_hilo k1 t.tid pid))
    k2 ← olvidar_hilo k1 t.proceso_padre t.tid pid hallado
    ok (record k2 { hilos = actualizar k2.hilos a none })

  unfoldable pub iniciar_proceso : Kernel → List ℕ → ℕ → ℕ → Resultado Kernel
  unfolding crear_pcb con_proceso
  iniciar_proceso k ruta tamanio prioridad = do
    let (k1, proceso_nuevo) = crear_pcb k
    k2 ← con_proceso k1 proceso_nuevo (proceso_iniciado ruta tamanio prioridad)
    ok (record k2 {
      procesos_en_new = list_add k2.procesos_en_new proceso_nuevo;
      sem_proceso_en_new = k2.sem_proceso_en_new + 1;
    })
