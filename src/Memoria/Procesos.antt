-- ===== src/Memoria/Procesos.antt =====
-- The processes (`t_proceso`, `lista_de_procesos`): creation in a free hole, search, removal, and
-- the bytes of the memory. Each function is the C function of its name; what it writes through a
-- pointer is written in the list where the search found the pointer.
use tp_sistemas_operativos.Base.{
  ℕ, ◌+◌, Bool, Option, none, some, List, [], ◌++◌, ◌&&◌, codes, strcmp_eq, ltb, leb, ◌==◌, add32,
  sub32, length, take, drop, if◌then◌else◌,
}
use tp_sistemas_operativos.Base.Resultado.{Resultado, ok, falla, ◌>>=◌}
use tp_sistemas_operativos.Commons.{Listas}
use tp_sistemas_operativos.Memoria.Hilos.{Tid, Archivos, crear_hilo}
use tp_sistemas_operativos.Memoria.Huecos.{Hueco, buscar_hueco_libre}
use tp_sistemas_operativos.Utils.OpCode.{OpCode}

-- `t_proceso`
pub record Proceso : Type 0 where
  pub pid : ℕ
  pub base : ℕ
  pub limite : ℕ
  pub tids : List Tid

-- What the module reads from its configuration, and the files that it can open.
pub record Configuracion : Type 0 where
  pub path_instrucciones : List ℕ
  pub esquema : List ℕ
  pub algoritmo_busqueda : List ℕ
  pub archivos : Archivos

-- The globals that change: the holes, the processes, and the bytes of `espacio_contiguo_en_memoria`.
pub record Memoria : Type 0 where
  pub huecos_libres : List Hueco
  pub lista_de_procesos : List Proceso
  pub espacio : List ℕ

-- The text and the code of the answer to the kernel.
abbrev pub Respuesta : Type 0
Respuesta = List ℕ × OpCode

abbrev pub tiene_el_mismo_pid : ℕ → Proceso → Bool
tiene_el_mismo_pid pid proceso = proceso.pid == pid

abbrev pub tiene_el_mismo_tid : ℕ → Tid → Bool
tiene_el_mismo_tid tid hilo = hilo.tid == tid

-- The test by which `eliminar_proceso_de_la_lista` picks a process.
abbrev pub tiene_pid_desde : ℕ → Proceso → Bool
tiene_pid_desde pid proceso = leb pid proceso.pid

module _ (c : Listas) where
  open c use {list_add, list_find, list_remove_by_condition}

  -- The process in a part of a hole, or in the whole of it.
  unfoldable pub alojar :
      Configuracion → Memoria → ℕ → ℕ → List ℕ → Hueco → Resultado (Memoria × Respuesta)
  alojar cfg m pid tamanio_del_proceso nombre hueco =
      if strcmp_eq cfg.esquema (codes "DINAMICAS") && ltb tamanio_del_proceso hueco.tamanio
      then (do
        let nuevo_hueco_libre : Hueco = record {
          inicio = add32 hueco.inicio tamanio_del_proceso;
          tamanio = sub32 hueco.tamanio tamanio_del_proceso;
        }
        tid ← crear_hilo cfg.archivos cfg.path_instrucciones nombre 0
        let proceso : Proceso = record {
          pid = pid;
          base = hueco.inicio;
          limite = sub32 (add32 hueco.inicio tamanio_del_proceso) 1;
          tids = list_add [] tid;
        }
        ok (
          record m {
            huecos_libres = list_add m.huecos_libres nuevo_hueco_libre;
            lista_de_procesos = list_add m.lista_de_procesos proceso;
          },
          (codes "OK", OpCode.confirmacion_proceso_creado),
        ))
      else (do
        tid ← crear_hilo cfg.archivos cfg.path_instrucciones nombre 0
        let proceso : Proceso = record {
          pid = pid;
          base = hueco.inicio;
          limite = sub32 (add32 hueco.inicio hueco.tamanio) 1;
          tids = list_add [] tid;
        }
        ok (
          record m { lista_de_procesos = list_add m.lista_de_procesos proceso },
          (codes "OK", OpCode.confirmacion_proceso_creado),
        ))

  -- `crear_proceso`, on what the search for a hole returned.
  unfoldable pub crear_proceso_en :
      Configuracion → Memoria → ℕ → ℕ → List ℕ → Option Hueco → Resultado (Memoria × Respuesta)
  crear_proceso_en cfg m pid tamanio nombre none =
      ok (m, (codes "EL PROCESO NO PUDO SER INICIALIZADO", OpCode.no_se_encontro_un_hueco_libre))
  crear_proceso_en cfg m pid tamanio nombre (some hueco) = alojar cfg m pid tamanio nombre hueco

  unfoldable pub crear_proceso :
      Configuracion → Memoria → ℕ → ℕ → List ℕ → Resultado (Memoria × Respuesta)
  unfolding crear_proceso_en
  crear_proceso cfg m pid tamanio nombre =
      let busqueda = buscar_hueco_libre c cfg.algoritmo_busqueda tamanio m.huecos_libres in
      crear_proceso_en cfg (record m { huecos_libres = busqueda.1 }) pid tamanio nombre busqueda.0

  unfoldable pub obtener_proceso : ℕ → List Proceso → Option Proceso
  obtener_proceso pid procesos = list_find procesos (tiene_el_mismo_pid pid)

  unfoldable pub obtener_tid : List Tid → ℕ → Option Tid
  obtener_tid tids tid_a_buscar = list_find tids (tiene_el_mismo_tid tid_a_buscar)

  unfoldable pub eliminar_proceso_de_la_lista : ℕ → List Proceso → Option Proceso × List Proceso
  eliminar_proceso_de_la_lista pid procesos =
      list_remove_by_condition procesos (tiene_pid_desde pid)

  unfoldable pub eliminar_tid_de_la_lista : List Tid → ℕ → Option Tid × List Tid
  eliminar_tid_de_la_lista lista tid_a_buscar =
      list_remove_by_condition lista (tiene_el_mismo_tid tid_a_buscar)

-- `memcpy` out of the memory; past its end it is a fault.
unfoldable pub leer_memoria : List ℕ → ℕ → ℕ → Resultado (List ℕ)
leer_memoria espacio direccion_fisica tamanio =
    if leb (direccion_fisica + tamanio) (length espacio)
    then ok (take tamanio (drop direccion_fisica espacio))
    else falla

-- `memcpy` of the bytes of a value into the memory.
unfoldable pub escribir_memoria : List ℕ → ℕ → List ℕ → ℕ → Resultado (List ℕ)
escribir_memoria espacio direccion_fisica valor tamanio =
    if leb (direccion_fisica + tamanio) (length espacio)
    then ok (
        take direccion_fisica espacio
        ++ (take tamanio valor ++ drop (direccion_fisica + tamanio) espacio))
    else falla
