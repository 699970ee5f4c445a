-- ===== src/Kernel/Pasos.antt =====
-- The threads of the kernel module together: in any order, each makes one round of its loop when its
-- `sem_wait` lets it pass. A round is not interrupted, but for the wait of the planner for the processor,
-- the sleep of `atender_io`, the sleep of the counters of a quantum, and the wait of `dump_memory` for the
-- memory, where it is cut in two.
use tp_sistemas_operativos.Base.{
  ℕ, ◌<◌, ◌≡◌, true, false, none, some, List, get_elem?, erase_idx, arith,
}
use tp_sistemas_operativos.Base.Resultado.{ok, ◌>>=◌}
use tp_sistemas_operativos.Commons.{Listas}
use tp_sistemas_operativos.Kernel.Estado.{Kernel, Volcado, Entorno}
use tp_sistemas_operativos.Kernel.Planificacion.{
  inicializar_estructuras, atender_archivo_inicial, planificador_corto_plazo, ejecutar_hilo,
  elegir_y_despachar, atender_respuesta, planificador_largo_plazo, finalizador_de_hilos, atender_io,
  atender_io_fin, controlar_tiempo_de_ejecucion,
}
use tp_sistemas_operativos.Kernel.Syscalls.{dump_memory_respuesta}

-- A round of the planner is its two parts, one after the other.
elegir_y_despachar-atender_respuesta :
    (c : Listas) (e : Entorno) (k : Kernel)
    → (elegir_y_despachar c e k >>= atender_respuesta c e) ≡ planificador_corto_plazo c e k
unfolding elegir_y_despachar planificador_corto_plazo ejecutar_hilo
elegir_y_despachar-atender_respuesta c e k = ground arith

-- One round of one of the threads.
pub data Paso (c : Listas) (e : Entorno) (k : Kernel) (k' : Kernel) : Type 0 where
  despacha :
      {k0 : Kernel}
      → k.espera_a_la_cpu ≡ false
      → (k.replanificar ≡ true → 0 < k.sem_hilo_en_ready)
      → elegir_y_despachar c e k ≡ ok k0
      → k' ≡ record k0 { espera_a_la_cpu = true }
      → Paso c e k k'
  atiende :
      k.espera_a_la_cpu ≡ true
      → atender_respuesta c e (record k { espera_a_la_cpu = false }) ≡ ok k'
      → Paso c e k k'
  largo_plazo : 0 < k.sem_proceso_en_new → planificador_largo_plazo c e k ≡ ok k' → Paso c e k k'
  finaliza : 0 < k.sem_hilo_en_exit → finalizador_de_hilos c e k ≡ ok k' → Paso c e k k'
  toma_io : k.solicitud_io ≡ none → 0 < k.sem_io → atender_io c e k ≡ ok k' → Paso c e k k'
  termina_io : atender_io_fin c e k ≡ ok k' → Paso c e k k'
  responde :
      (i : ℕ) (v : Volcado)
      → get_elem? k.volcados i ≡ some v
      → dump_memory_respuesta c e (record k { volcados = erase_idx k.volcados i }) v ≡ ok k'
      → Paso c e k k'
  vence :
      (i : ℕ) (reloj : ℕ × ℕ)
      → get_elem? k.relojes i ≡ some reloj
      → controlar_tiempo_de_ejecucion c e (record k { relojes = erase_idx k.relojes i }) reloj
        ≡ ok k'
      → Paso c e k k'

-- What the module may come to from its start with a file of pseudocode, when the processor says the
-- bytes given.
pub data Alcanza (c : Listas) (e : Entorno) (cpu ruta tamanio : List ℕ) : Kernel → Type 0 where
  inicio :
      {k : Kernel}
      → atender_archivo_inicial c e (inicializar_estructuras cpu) ruta tamanio ≡ ok k
      → Alcanza c e cpu ruta tamanio k
  sigue :
      {k k' : Kernel}
      → Alcanza c e cpu ruta tamanio k
      → Paso c e k k'
      → Alcanza c e cpu ruta tamanio k'
