-- ===== src/Kernel/Estado.antt =====
-- kernel/src/pcbYtcb.h and the globals of kernel/src/mainkernel.c. Threads, processes and mutexes are
-- shared through pointers, so they live in stores by address; a list of pointers is a list of
-- addresses. An address that was freed has no content, and following it is a fault. `malloc` gives an
-- address that was never given before.
use tp_sistemas_operativos.Base.{
  ℕ, Bool, true, false, Option, none, some, List, strcmp_eq, ◌==◌, if◌then◌else◌,
}
use tp_sistemas_operativos.Base.Resultado.{Resultado, ok, ◌>>=◌, deref}
use tp_sistemas_operativos.Commons.{Listas}

-- `t_estado`
pub data Estado : Type 0 where
  sin_estado new ready execute blocked exit bloqueado_por_mutex terminado : Estado

-- `t_pcb`
pub record Pcb : Type 0 where
  pub pid : ℕ
  pub archivo_de_pseudocodigo : List ℕ
  pub lista_de_hilos_del_proceso : List ℕ
  pub lista_de_mutex_del_proceso : List ℕ
  pub estado_del_proceso : Estado
  pub tamanio : ℕ
  pub siguiente_tid : ℕ
  pub siguiente_mid : ℕ
  pub prioridad_tid0 : ℕ

-- `t_tcb`
pub record Tcb : Type 0 where
  pub tid : ℕ
  pub archivo_de_pseudocodigo : List ℕ
  pub proceso_padre : ℕ
  pub estado_del_hilo : Estado
  pub prioridad : ℕ
  pub hilo_bloqueado_por_join : Option ℕ
  pub mutex_en_espera : List ℕ
  pub bloqueado_por_join : Bool
  pub bloqueado_por_io : Bool
  pub fin_deq : ℕ
  pub clock_contando : Bool

-- `t_mutex`
pub record Mutex : Type 0 where
  pub mid : ℕ
  pub nombre_recurso : List ℕ
  pub hilos_bloqueados : List ℕ
  pub tomado_por : Option ℕ

-- `t_cola`, which only `colasDeReady` points to.
pub record Cola : Type 0 where
  pub prioridad : ℕ
  pub cola_multinivel : List ℕ

-- `t_solicitudIO`
pub record SolicitudIo : Type 0 where
  pub hilo_atendido : ℕ
  pub tiempo_bloqueado : ℕ

-- A thread in `dump_memory` that waits for the memory: the locals it reads later, and what is to
-- arrive on its connection.
pub record Volcado : Type 0 where
  pub hilo_auxiliar : ℕ
  pub tid : ℕ
  pub pid : ℕ
  pub conexion : List ℕ

-- The globals. `socket_cpu_dispatch` is what the processor still has to say, `a_cpu` and `a_interrupt`
-- what it has been sent; `pedidos` are the requests to the memory, one for each connection;
-- `relojes` are the counters of a quantum that run, by thread and process; `solicitud_io` is the local
-- of `atender_io` while it sleeps, and `espera_a_la_cpu` tells whether `ejecutar_hilo` waits for the
-- processor.
pub record Kernel : Type 0 where
  pub hilos : ℕ → Option Tcb
  pub procesos : ℕ → Option Pcb
  pub recursos : ℕ → Option Mutex
  pub siguiente_direccion : ℕ
  pub siguiente_pid : ℕ
  pub lista_de_procesos_en_sistema : List ℕ
  pub procesos_en_new : List ℕ
  pub hilos_en_ready : List ℕ
  pub hilos_en_block : List ℕ
  pub hilos_en_exit : List ℕ
  pub colas_de_ready : List Cola
  pub dispositivo_io : List SolicitudIo
  pub hilo_en_exec : Option ℕ
  pub replanificar : Bool
  pub sem_proceso_en_new : ℕ
  pub sem_hilo_en_exit : ℕ
  pub sem_hilo_en_ready : ℕ
  pub sem_io : ℕ
  pub socket_cpu_dispatch : List ℕ
  pub a_cpu : List ℕ
  pub a_interrupt : List ℕ
  pub pedidos : List (List ℕ)
  pub volcados : List Volcado
  pub relojes : List (ℕ × ℕ)
  pub solicitud_io : Option SolicitudIo
  pub espera_a_la_cpu : Bool

-- What the code asks of the rest of the world: the planning algorithm of the configuration, and what
-- the memory answers to a request after those that it has served.
pub record Entorno : Type 0 where
  pub algoritmo_planificacion : List ℕ
  pub memoria : List (List ℕ) → List ℕ → List ℕ

-- A store after a write at an address.
abbrev pub actualizar : {A : Type 0} → (ℕ → Option A) → ℕ → Option A → ℕ → Option A
actualizar f p v q = if p == q then v else f q

-- Writes through a pointer.
unfoldable pub con_hilo : Kernel → ℕ → (Tcb → Tcb) → Resultado Kernel
con_hilo k a f = do
  t ← deref (k.hilos a)
  ok (record k { hilos = actualizar k.hilos a (some (f t)) })

unfoldable pub con_proceso : Kernel → ℕ → (Pcb → Pcb) → Resultado Kernel
con_proceso k p f = do
  q ← deref (k.procesos p)
  ok (record k { procesos = actualizar k.procesos p (some (f q)) })

unfoldable pub con_recurso : Kernel → ℕ → (Mutex → Mutex) → Resultado Kernel
con_recurso k m f = do
  r ← deref (k.recursos m)
  ok (record k { recursos = actualizar k.recursos m (some (f r)) })

-- `unHilo->procesoPadre->pid`
unfoldable pub pid_del_hilo : Kernel → Tcb → Resultado ℕ
pid_del_hilo k t = do p ← deref (k.procesos t.proceso_padre); ok p.pid

-- The condition `esElHilo` of the searches: the thread of an id, of the process of an id. A search ends
-- at the first element that the condition accepts or can not read; `leido` tells these apart.
unfoldable pub es_del_proceso : Kernel → ℕ → ℕ → Bool
es_del_proceso k pid p = elim (k.procesos p) [ none ↦ true | some q ↦ q.pid == pid ]

unfoldable pub es_el_hilo : Kernel → ℕ → ℕ → ℕ → Bool
es_el_hilo k tid pid candidato = elim (k.hilos candidato) [
  | none ↦ true
  | some t ↦ if t.tid == tid then es_del_proceso k pid t.proceso_padre else false
]

unfoldable pub leido : Kernel → Option ℕ → Resultado (Option ℕ)
leido k none = ok none
leido k (some a) = do t ← deref (k.hilos a); pid ← pid_del_hilo k t; ok (some a)

-- The condition `esElMutex`: the mutex of a name.
unfoldable pub es_el_mutex : Kernel → List ℕ → ℕ → Bool
es_el_mutex k nombre m = elim (k.recursos m) [
  | none ↦ true
  | some r ↦ strcmp_eq r.nombre_recurso nombre
]

unfoldable pub leido_mutex : Kernel → Option ℕ → Resultado (Option ℕ)
leido_mutex k none = ok none
leido_mutex k (some m) = do r ← deref (k.recursos m); ok (some m)

-- `mutex->tomadoPor == unHilo`
unfoldable pub apunta_a : Option ℕ → ℕ → Bool
apunta_a none a = false
apunta_a (some b) a = b == a

module _ (c : Listas) where
  open c use {list_remove_by_condition}

  -- `list_remove_by_condition(lista, esElHilo)`
  unfoldable pub remover_hilo : Kernel → List ℕ → ℕ → ℕ → Resultado (Option ℕ × List ℕ)
  remover_hilo k lista tid pid = do
    let (hallado, resto) = list_remove_by_condition lista (es_el_hilo k tid pid)
    h ← leido k hallado
    ok (h, resto)

  -- `list_remove_by_condition(lista, esElMutex)`
  unfoldable pub remover_mutex : Kernel → List ℕ → List ℕ → Resultado (Option ℕ × List ℕ)
  remover_mutex k lista nombre = do
    let (hallado, resto) = list_remove_by_condition lista (es_el_mutex k nombre)
    m ← leido_mutex k hallado
    ok (m, resto)
