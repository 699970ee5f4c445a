-- ===== src/Pruebas/DeKernel.antt =====
-- The kernel on concrete data: a first process, which makes a second thread and ends it.
use tp_sistemas_operativos.Base.{
  ℕ, ◌≤◌, ◌<◌, ◌≡◌, refl, true, false, none, some, List, [], ◌∷◌, ◌++◌, codes, length, arith, ◌==◌,
  if◌then◌else◌, find?, modify_p, ◌⊎◌, strcmp_eq, All, IsSorted, erase_p,
}
use tp_sistemas_operativos.Base.Resultado.{Resultado, ok, salir, falla, ◌>>=◌}
use tp_sistemas_operativos.Commons.Referencia.{referencia}
use tp_sistemas_operativos.Kernel.Estado.{Kernel, Tcb, Cola, Entorno, Estado, con_hilo, con_proceso}
use tp_sistemas_operativos.Kernel.Altas.{hilo_nuevo, iniciar_proceso, crear_tcb, crear_pcb}
use tp_sistemas_operativos.Kernel.Colas.{
  transicion_a_ready, crear_cola_ready, obtener_cola_multinivel, encolar, puede_correr,
  usamos_multicolas, hilo_esperando_mutex, tiene_prioridad, elegir_siguiente_prioridad,
  elegir_siguiente_colas,
}
use tp_sistemas_operativos.Kernel.Eleccion.{
  Unicos, prioridad_de, con_hilos, elegir_siguiente_prioridad-Elige, elegir_siguiente_colas-Elige,
}
use tp_sistemas_operativos.Kernel.Semaforo.Colas.{encolados}
use tp_sistemas_operativos.Kernel.Semaforo.Rondas.{Alcanza-semaforos}
use tp_sistemas_operativos.Kernel.Planificacion.{
  controlar_tiempo_de_ejecucion, inicializar_estructuras, atender_archivo_inicial,
  planificador_largo_plazo, atender_respuesta, atender_io, atender_io_fin, planificador_corto_plazo,
}
use tp_sistemas_operativos.Kernel.Logra.{Logra}
use tp_sistemas_operativos.Kernel.Desalojo.{controlar_tiempo_de_ejecucion-atender_respuesta}
use tp_sistemas_operativos.Cpu.Guardado.{pedido_de_guardar}
use tp_sistemas_operativos.Cpu.Registros.{Cpu}
use tp_sistemas_operativos.Kernel.Final.{finalizar_hilos-fuel}
use tp_sistemas_operativos.Kernel.Niveles.{
  Antes, cuantas, pedida, crear_colas, crear_cola_ready-obtener_cola_multinivel,
}
use tp_sistemas_operativos.Kernel.Dispositivo.{syscall_io-atender_io_fin}
use tp_sistemas_operativos.Cpu.Ejecucion.{syscall_io, interrumpir, check_interrupt}
use tp_sistemas_operativos.Pruebas.DeCpu.{cpu}
use tp_sistemas_operativos.Kernel.Vivos.{Vive}
use tp_sistemas_operativos.Kernel.Reparto.{servir_todos-segun_cerrojo}
use tp_sistemas_operativos.Kernel.Caida.{eliminar_de_colas-planificador_corto_plazo}
use tp_sistemas_operativos.Kernel.Exclusion.{
  tras_rechazo, Pedido, toma, suelta, cerrojo_en, servir_todos,
}
use tp_sistemas_operativos.Kernel.Bajas.{eliminar_de_colas, finalizar_hilos}
use tp_sistemas_operativos.Kernel.Pasos.{inicio, sigue, largo_plazo}
use tp_sistemas_operativos.Utils.OpCode.{OpCode, valor}
use tp_sistemas_operativos.Utils.Paquete.{
  crear_buffer, crear_paquete, agregar_a_paquete, agregar_entero, agregar_cadena,
  serializar_paquete, enviar_paquete, enviar_respuesta,
}
use tp_sistemas_operativos.Utils.Bytes.{bytes_de, leer_entero, leer_bytes}
use tp_sistemas_operativos.Utils.Recepcion.{
  recibir_operacion, recibir_una_cadena, recibir_buffer2, deserializar_int, deserializar_bloque,
}
use tp_sistemas_operativos.Cpu.Instruccion.{
  atoi, con_signo, digitos, negativo, positivo, sin_espacios,
}
use tp_sistemas_operativos.Kernel.Avisos.{
  consultar_espacio_disponible, notificar_creacion_hilo, es_codigo, pedido_de_proceso,
}

-- A memory that says yes to the first request, which makes the process, and then to threads.
abbrev memoria_amable : List (List ℕ) → List ℕ → List ℕ
memoria_amable [] pedido = enviar_respuesta (codes "OK") OpCode.confirmacion_proceso_creado
memoria_amable (x ∷ xs) pedido = enviar_respuesta (codes "OK") OpCode.respuesta_creacion_de_hilo

abbrev por_prioridades : Entorno
por_prioridades = record { algoritmo_planificacion = codes "PRIORIDADES"; memoria = memoria_amable }

-- The processor asks for a thread of priority 1.
abbrev habla_la_cpu : List ℕ
habla_la_cpu =
    enviar_paquete
      (agregar_entero (agregar_cadena (crear_paquete OpCode.thread_create) (codes "h1")) 1)

abbrev obtener : Resultado Kernel → Kernel
obtener (ok k) = k
obtener salir = inicializar_estructuras []
obtener falla = inicializar_estructuras []

abbrev arrancado : Kernel
arrancado = obtener (
    atender_archivo_inicial referencia por_prioridades (inicializar_estructuras habla_la_cpu)
      (codes "p") (codes "64"))

abbrev con_primer_hilo : Kernel
con_primer_hilo = obtener (planificador_largo_plazo referencia por_prioridades arrancado)

Alcanza-semaforos_example :
    (encolados con_primer_hilo ≤ con_primer_hilo.sem_hilo_en_ready)
    × (con_primer_hilo.sem_hilo_en_exit ≡ length con_primer_hilo.hilos_en_exit)
    × (con_primer_hilo.sem_io ≡ length con_primer_hilo.dispositivo_io)
unfolding planificador_largo_plazo atender_archivo_inicial atoi con_signo digitos negativo positivo
    sin_espacios iniciar_proceso inicializar_estructuras consultar_espacio_disponible
    recibir_operacion enviar_respuesta bytes_de leer_entero recibir_una_cadena leer_bytes valor
    crear_tcb notificar_creacion_hilo transicion_a_ready strcmp_eq crear_pcb es_codigo
    crear_cola_ready encolar puede_correr con_hilo con_proceso agregar_a_paquete agregar_cadena
    crear_buffer crear_paquete enviar_paquete serializar_paquete deserializar_bloque
    deserializar_int recibir_buffer2 usamos_multicolas hilo_esperando_mutex pedido_de_proceso
    agregar_entero
Alcanza-semaforos_example =
    Alcanza-semaforos referencia por_prioridades habla_la_cpu (codes "p") (codes "64")
      (sigue {k = arrancado} (inicio refl) (largo_plazo (omega arith) refl))

-- Two threads of a process, of priorities 5 and 2.
abbrev hilo_de_prueba : ℕ → ℕ → Tcb
hilo_de_prueba tid prioridad = record (hilo_nuevo 0 tid prioridad []) { tid = tid }

abbrev con_dos : Kernel
con_dos = record (inicializar_estructuras []) {
  hilos = λ a.
      if a == 1
      then some (hilo_de_prueba 0 5)
      else if a == 2
      then some (hilo_de_prueba 1 2)
      else none;
  procesos = λ p.
      if p == 0
      then some (record {
        pid = 7;
        archivo_de_pseudocodigo = [];
        lista_de_hilos_del_proceso = 1 ∷ 2 ∷ [];
        lista_de_mutex_del_proceso = [];
        estado_del_proceso = Estado.ready;
        tamanio = 0;
        siguiente_tid = 2;
        siguiente_mid = 0;
        prioridad_tid0 = 5;
      })
      else none;
  hilos_en_ready = 1 ∷ 2 ∷ [];
  colas_de_ready =
      (record { prioridad = 2; cola_multinivel = [] })
      ∷ (record { prioridad = 5; cola_multinivel = 1 ∷ 2 ∷ [] })
      ∷ [];
}

con_dos-Unicos : Unicos con_dos
con_dos-Unicos a b t u p q ha hp hb hq ht hpid = ground arith

elegir_siguiente_prioridad-Elige_example :
    (a : ℕ) × (elegir_siguiente_prioridad referencia por_prioridades con_dos
      ≡ ok (record con_dos { hilos_en_ready = erase_p (λ b. b == a) (1 ∷ 2 ∷ []) }, some a))
    × All (λ b. prioridad_de con_dos a ≤ prioridad_de con_dos b) (1 ∷ 2 ∷ [])
    × (find? (λ b. prioridad_de con_dos b == prioridad_de con_dos a) (1 ∷ 2 ∷ []) ≡ some a)
elegir_siguiente_prioridad-Elige_example =
    elegir_siguiente_prioridad-Elige referencia por_prioridades con_dos (λ e. cc)
      ((hilo_de_prueba 0 5, _, refl, refl), ((hilo_de_prueba 1 2, _, refl, refl), tt))
      con_dos-Unicos

elegir_siguiente_colas-Elige_example :
    ((elegir_siguiente_colas referencia por_prioridades con_dos ≡ salir)
      × All (λ r. (length r.cola_multinivel == 0) ≡ true) con_dos.colas_de_ready)
    ⊎ ((q : Cola) × (a : ℕ) × (resto : List ℕ) × (find? (con_hilos q) con_dos.colas_de_ready
          ≡ some q)
        × (q.cola_multinivel ≡ a ∷ resto)
        × All
            (λ r. (length r.cola_multinivel == 0) ≡ false → q.prioridad ≤ r.prioridad)
            con_dos.colas_de_ready
        × (elegir_siguiente_colas referencia por_prioridades con_dos
            ≡ ok (
              record con_dos {
                colas_de_ready =
                    modify_p
                      (con_hilos q)
                      (λ r. record r { cola_multinivel = resto })
                      con_dos.colas_de_ready;
              },
              some a,
            )))
elegir_siguiente_colas-Elige_example =
    elegir_siguiente_colas-Elige referencia por_prioridades con_dos

-- A free mutex "R", which two threads ask for.
abbrev con_mutex : Kernel
con_mutex = record con_dos {
  recursos = λ m.
      if m == 9
      then some
          (record { mid = 0; nombre_recurso = codes "R"; hilos_bloqueados = []; tomado_por = none })
      else none;
}

-- The second release is by a thread that no longer has the mutex.
abbrev dos_toman_uno_suelta : List Pedido
dos_toman_uno_suelta = toma 1 ∷ toma 2 ∷ suelta 1 (codes "R") ∷ suelta 1 (codes "R") ∷ toma 1 ∷ []

abbrev por_colas : Entorno
por_colas = record { algoritmo_planificacion = codes "CMN"; memoria = memoria_amable }

servir_todos-segun_cerrojo_example :
    (k : Kernel) × (servir_todos referencia por_colas con_mutex 9 dos_toman_uno_suelta
      ≡ tras_rechazo referencia por_colas k 9 (some (1, toma 1 ∷ [])))
    × (cerrojo_en k 9 ≡ some (some 2, []))
    × All (Vive por_colas k) k.hilos_en_block
unfolding inicializar_estructuras
servir_todos-segun_cerrojo_example =
    servir_todos-segun_cerrojo referencia por_colas dos_toman_uno_suelta con_mutex 9 (none, []) refl
      tt tt
      (
        (hilo_de_prueba 0 5, _, refl, refl, tt, λ si. (_, refl)),
        (
          (hilo_de_prueba 1 2, _, refl, refl, tt, λ si. (_, refl)),
          (tt, (tt, ((hilo_de_prueba 0 5, _, refl, refl, tt, λ si. (_, refl)), tt))),
        ),
      )

abbrev por_llegada : Entorno
por_llegada = record { algoritmo_planificacion = codes "FIFO"; memoria = memoria_amable }

abbrev con_uno : Kernel
con_uno = record con_dos { hilos_en_ready = 1 ∷ []; sem_hilo_en_ready = 1 }

eliminar_de_colas-planificador_corto_plazo_example :
    (k : Kernel) × (eliminar_de_colas referencia por_llegada con_uno 1 ≡ ok k)
    × (0 < k.sem_hilo_en_ready)
    × (planificador_corto_plazo referencia por_llegada (record k { replanificar = true }) ≡ falla)
unfolding inicializar_estructuras
eliminar_de_colas-planificador_corto_plazo_example =
    eliminar_de_colas-planificador_corto_plazo referencia por_llegada con_uno 1 (hilo_de_prueba 0 5)
      _ refl refl refl refl refl (omega arith)

-- The thread of priority 5 runs, and asks the device for 30.
abbrev pide_io : Kernel
pide_io = record con_dos {
  hilos_en_ready = 2 ∷ [];
  hilo_en_exec = some 1;
  socket_cpu_dispatch = (syscall_io (cpu []) 30).a_kernel ++ [];
}

syscall_io-atender_io_fin_example :
    Logra
      (λ k.
        (k.hilos_en_ready ≡ 2 ∷ 1 ∷ [])
        × (k.sem_hilo_en_ready ≡ 1)
        × (k.dispositivo_io ≡ [])
        × (k.sem_io ≡ 0)
        × (k.socket_cpu_dispatch ≡ [])
        × (k.hilos_en_block ≡ 1 ∷ []))
      (atender_respuesta referencia por_llegada pide_io
        >>= (λ k1. atender_io referencia por_llegada k1 >>= atender_io_fin referencia por_llegada))
unfolding inicializar_estructuras usamos_multicolas strcmp_eq
syscall_io-atender_io_fin_example =
    syscall_io-atender_io_fin referencia por_llegada pide_io (cpu []) 1 30 (hilo_de_prueba 0 5) _ []
      refl (omega arith) refl refl refl refl refl refl refl refl

crear_cola_ready-obtener_cola_multinivel_example :
    IsSorted Antes (crear_colas referencia por_colas [] (5 ∷ 2 ∷ 5 ∷ []))
    × (((pedida 2 (5 ∷ 2 ∷ 5 ∷ []) ≡ true)
          × (cuantas 2 (crear_colas referencia por_colas [] (5 ∷ 2 ∷ 5 ∷ [])) ≡ 1)
          × ((q : Cola) × (obtener_cola_multinivel referencia por_colas
                  (crear_colas referencia por_colas [] (5 ∷ 2 ∷ 5 ∷ []))
                  2
                ≡ ok q)
              × (q.prioridad ≡ 2)))
        ⊎ ((pedida 2 (5 ∷ 2 ∷ 5 ∷ []) ≡ false)
            × (cuantas 2 (crear_colas referencia por_colas [] (5 ∷ 2 ∷ 5 ∷ [])) ≡ 0)
            × (obtener_cola_multinivel referencia por_colas
                  (crear_colas referencia por_colas [] (5 ∷ 2 ∷ 5 ∷ []))
                  2
                ≡ salir)))
unfolding usamos_multicolas strcmp_eq
crear_cola_ready-obtener_cola_multinivel_example =
    crear_cola_ready-obtener_cola_multinivel referencia por_colas refl (5 ∷ 2 ∷ 5 ∷ []) 2

finalizar_hilos-fuel_example :
    finalizar_hilos referencia por_llegada falla 2 0 con_dos 0
    ≡ finalizar_hilos referencia por_llegada salir 10 0 con_dos 0
finalizar_hilos-fuel_example =
    finalizar_hilos-fuel referencia por_llegada falla salir 2 10 0 con_dos 0 _ refl (omega arith)
      (omega arith)

-- The thread of priority 5 runs, and its quantum is over.
abbrev en_quantum : Kernel
en_quantum = record con_dos {
  hilos =
      λ a. if a == 1 then some (record (hilo_de_prueba 0 5) { clock_contando = true }) else none;
  colas_de_ready =
      (record { prioridad = 2; cola_multinivel = 2 ∷ [] })
      ∷ (record { prioridad = 5; cola_multinivel = 3 ∷ [] })
      ∷ [];
  hilo_en_exec = some 1;
}

abbrev corriendo : Cpu
corriendo = record (cpu (enviar_respuesta (codes "OK") OpCode.contexto_actualizado ++ [])) {
  pid = 7;
}

controlar_tiempo_de_ejecucion-atender_respuesta_example :
    (k1 : Kernel) × (q1 : Cpu) × (q2 : Cpu) × (k2 : Kernel) × (controlar_tiempo_de_ejecucion
        referencia por_colas en_quantum
        (0, 7)
      ≡ ok k1)
    × (interrumpir corriendo k1.a_interrupt ≡ ok (q1, []))
    × (check_interrupt q1 ≡ ok q2)
    × (q2.a_memoria ≡ pedido_de_guardar corriendo)
    × (q2.seguir_ejecutando ≡ false)
    × (q2.pid_interrupt ≡ 4294967295)
    × (q2.tid_interrupt ≡ 4294967295)
    × (atender_respuesta referencia por_colas (record k1 { socket_cpu_dispatch = q2.a_kernel })
        ≡ ok k2)
    × (find? (tiene_prioridad 5) k2.colas_de_ready
        ≡ some (record { prioridad = 5; cola_multinivel = 3 ∷ 1 ∷ [] }))
    × (k2.sem_hilo_en_ready ≡ 1)
    × (k2.replanificar ≡ true)
unfolding inicializar_estructuras usamos_multicolas strcmp_eq
controlar_tiempo_de_ejecucion-atender_respuesta_example =
    controlar_tiempo_de_ejecucion-atender_respuesta referencia por_colas refl en_quantum corriendo 1
      _ _ _ (codes "OK") [] refl refl refl refl refl refl refl refl refl refl (omega arith)
      (omega arith) refl refl (omega arith) refl
