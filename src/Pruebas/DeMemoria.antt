-- ===== src/Pruebas/DeMemoria.antt =====
-- The memory module on a small memory with one process, and the theorems about it applied there.
use tp_sistemas_operativos.Base.{
  ℕ, ◌+◌, ◌≤◌, ◌≡◌, ◌⊎◌, refl, some, List, [], ◌∷◌, ◌++◌, arith, codes, strcmp_eq, replicate,
}
use tp_sistemas_operativos.Base.Resultado.{ok}
use tp_sistemas_operativos.Commons.Referencia.{referencia, ordenar}
use tp_sistemas_operativos.Memoria.Ajuste.{Elige, buscar_hueco_libre-Elige}
use tp_sistemas_operativos.Memoria.Bajas.{sin_pid, eliminar_proceso_de_la_lista-ordenada}
use tp_sistemas_operativos.Memoria.Contexto.{
  actualizar_contexto-obtener_contexto, actualizar_contexto-otro_proceso,
  actualizar_contexto-otro_hilo,
}
use tp_sistemas_operativos.Memoria.Cpu.{
  Contexto, actualizar_contexto, obtener_contexto, read_mem, write_mem,
}
use tp_sistemas_operativos.Memoria.Espacio.{write_mem-read_mem}
use tp_sistemas_operativos.Memoria.Hilos.{hilo_inicial, crear_hilo}
use tp_sistemas_operativos.Memoria.Historia.{atender_kernel-duenios}
use tp_sistemas_operativos.Memoria.Huecos.{
  Hueco, first_fit, buscar_hueco_libre, consolidar_huecos_libres_aledanios,
}
use tp_sistemas_operativos.Memoria.Inicio.{iniciar, atender_kernel}
use tp_sistemas_operativos.Memoria.Kernel.{Entorno, finalizacion_de_proceso}
use tp_sistemas_operativos.Memoria.Ocupacion.{libres_en, cubre, largo, consolidar-libres_en}
use tp_sistemas_operativos.Memoria.Particion.{
  EsValida, Conserva, duenios, crear_proceso-Conserva, finalizacion_de_proceso-Conserva,
}
use tp_sistemas_operativos.Memoria.Procesos.{
  Proceso, Memoria, Configuracion, alojar, crear_proceso, obtener_proceso, obtener_tid,
  eliminar_proceso_de_la_lista,
}
use tp_sistemas_operativos.Utils.OpCode
use tp_sistemas_operativos.Utils.OpCode.{OpCode}
use tp_sistemas_operativos.Utils.Paquete.{
  crear_paquete, agregar_entero, agregar_cadena, enviar_paquete, enviar_respuesta,
}

abbrev cfg : Configuracion
cfg = record {
  path_instrucciones = codes "p/";
  esquema = codes "DINAMICAS";
  algoritmo_busqueda = codes "FIRST";
  archivos = λ nombre. some (codes "SUM AX BX" ++ (10 ∷ codes "PROCESS_EXIT"));
}

abbrev entorno : Entorno
entorno = record {
  timestamp = codes "0";
  string_itoa = λ n. codes "1";
  filesystem = λ pedido. enviar_respuesta (codes "OK") OpCode.respuesta_creacion_de_archivos;
}

abbrev instrucciones : List (List ℕ)
instrucciones = codes "SUM AX BX" ∷ codes "PROCESS_EXIT" ∷ []

abbrev proceso1 : Proceso
proceso1 = record {
  pid = 1;
  base = 0;
  limite = 15;
  tids = hilo_inicial 0 instrucciones ∷ hilo_inicial 1 instrucciones ∷ [];
}

abbrev proceso2 : Proceso
proceso2 = record { pid = 2; base = 16; limite = 23; tids = hilo_inicial 0 instrucciones ∷ [] }

abbrev hueco : ℕ → ℕ → Hueco
hueco inicio tamanio = record { inicio = inicio; tamanio = tamanio }

abbrev con_uno : Memoria
con_uno = record {
  huecos_libres = hueco 16 48 ∷ [];
  lista_de_procesos = proceso1 ∷ [];
  espacio = replicate 64 0;
}

abbrev con_dos : Memoria
con_dos = record {
  huecos_libres = hueco 24 40 ∷ [];
  lista_de_procesos = proceso1 ∷ proceso2 ∷ [];
  espacio = replicate 64 0;
}

abbrev solo_el_dos : Memoria
solo_el_dos = record {
  huecos_libres = hueco 24 40 ∷ hueco 0 16 ∷ [];
  lista_de_procesos = proceso2 ∷ [];
  espacio = replicate 64 0;
}

con_uno-EsValida : EsValida 64 con_uno
con_uno-EsValida = record {
  huecos = (omega arith, tt);
  procesos = ((omega arith, omega arith), tt);
  espacio = refl;
}

con_dos-EsValida : EsValida 64 con_dos
con_dos-EsValida = record {
  huecos = (omega arith, tt);
  procesos = ((omega arith, omega arith), ((omega arith, omega arith), tt));
  espacio = refl;
}

crear_dos :
    crear_proceso referencia cfg con_uno 2 8 (codes "b")
    ≡ ok (con_dos, (codes "OK", OpCode.confirmacion_proceso_creado))
unfolding crear_proceso buscar_hueco_libre strcmp_eq first_fit ordenar alojar crear_hilo
crear_dos = refl

crear_proceso-Conserva_example : Conserva 64 con_uno con_dos
crear_proceso-Conserva_example =
    crear_proceso-Conserva referencia cfg 64 (omega arith) con_uno con_dos
      (codes "OK", OpCode.confirmacion_proceso_creado) 2 8 (codes "b") con_uno-EsValida crear_dos

terminar_uno : finalizacion_de_proceso referencia cfg con_dos 1 ≡ ok solo_el_dos
unfolding finalizacion_de_proceso eliminar_proceso_de_la_lista strcmp_eq
    consolidar_huecos_libres_aledanios
terminar_uno = refl

finalizacion_de_proceso-Conserva_example : Conserva 64 con_dos solo_el_dos
finalizacion_de_proceso-Conserva_example =
    finalizacion_de_proceso-Conserva referencia cfg 64 (omega arith) con_dos solo_el_dos 1
      con_dos-EsValida terminar_uno

abbrev pedido_de_creacion : ℕ → ℕ → List ℕ → List ℕ
pedido_de_creacion pid tamanio nombre = enviar_paquete (
    agregar_cadena
      (agregar_entero (agregar_entero (crear_paquete OpCode.creacion_de_proceso) pid) tamanio)
      nombre)

abbrev pedidos : List (List ℕ)
pedidos =
    pedido_de_creacion 1 16 (codes "a")
    ∷ pedido_de_creacion 2 8 (codes "b")
    ∷ enviar_paquete (agregar_entero (crear_paquete OpCode.finalizacion_de_proceso) 1)
    ∷ []

servir :
    atender_kernel referencia cfg entorno (iniciar referencia cfg [] (replicate 64 0)) pedidos
    ≡ ok solo_el_dos
unfolding iniciar atender_kernel tp_sistemas_operativos.Memoria.Kernel.atender_cliente
    tp_sistemas_operativos.Utils.Recepcion.recibir_operacion enviar_paquete
    tp_sistemas_operativos.Utils.Bytes.bytes_de tp_sistemas_operativos.Utils.Bytes.leer_entero
    OpCode.de_valor OpCode.valor agregar_cadena agregar_entero crear_paquete
    tp_sistemas_operativos.Utils.Recepcion.recibir_enteros_y_valor2
    tp_sistemas_operativos.Utils.Bytes.leer_bytes tp_sistemas_operativos.Utils.Recepcion.cadena_c
    crear_proceso buscar_hueco_libre strcmp_eq first_fit ordenar alojar crear_hilo
    tp_sistemas_operativos.Utils.Recepcion.recibir_un_entero finalizacion_de_proceso
    eliminar_proceso_de_la_lista consolidar_huecos_libres_aledanios enviar_respuesta
servir = refl

atender_kernel-duenios_example : (duenios 20 solo_el_dos ≡ 1) × EsValida 64 solo_el_dos
unfolding strcmp_eq
atender_kernel-duenios_example =
    atender_kernel-duenios referencia cfg 64 (omega arith) entorno [] (replicate 64 0) pedidos
      solo_el_dos 20 refl (omega arith) servir

consolidar-libres_en_example :
    libres_en 3 (consolidar_huecos_libres_aledanios referencia 0 15 (hueco 16 48 ∷ []))
    ≡ libres_en 3 (hueco 16 48 ∷ []) + cubre 3 0 (largo 0 15)
consolidar-libres_en_example =
    consolidar-libres_en referencia 64 0 15 (omega arith) (omega arith) (omega arith)
      (hueco 16 48 ∷ []) 3 (omega arith, tt)

buscar_hueco_libre-Elige_example :
    Elige
      (λ g h. g.inicio ≤ h.inicio)
      8
      (hueco 40 8 ∷ hueco 0 4 ∷ hueco 16 20 ∷ [])
      (buscar_hueco_libre referencia (codes "FIRST") 8 (hueco 40 8 ∷ hueco 0 4 ∷ hueco 16 20 ∷ []))
    × Elige
        (λ g h. g.tamanio ≤ h.tamanio)
        8
        (hueco 40 8 ∷ hueco 0 4 ∷ hueco 16 20 ∷ [])
        (buscar_hueco_libre referencia (codes "BEST") 8 (hueco 40 8 ∷ hueco 0 4 ∷ hueco 16 20 ∷ []))
    × Elige
        (λ g h. h.tamanio ≤ g.tamanio)
        8
        (hueco 40 8 ∷ hueco 0 4 ∷ hueco 16 20 ∷ [])
        (buscar_hueco_libre referencia
          (codes "WORST")
          8
          (hueco 40 8 ∷ hueco 0 4 ∷ hueco 16 20 ∷ []))
buscar_hueco_libre-Elige_example =
    buscar_hueco_libre-Elige referencia 8 (hueco 40 8 ∷ hueco 0 4 ∷ hueco 16 20 ∷ [])

write_mem-read_mem_example :
    (m' : Memoria) × (write_mem con_uno 12 305419896 ≡ ok m')
    × (read_mem m' 12 ≡ ok 305419896)
    × ((e : ℕ) → ((e + 4 ≤ 12) ⊎ (12 + 4 ≤ e)) → read_mem m' e ≡ read_mem con_uno e)
    × (m'.huecos_libres ≡ con_uno.huecos_libres)
    × (m'.lista_de_procesos ≡ con_uno.lista_de_procesos)
write_mem-read_mem_example = write_mem-read_mem con_uno 12 305419896 (omega arith) (omega arith)

abbrev nuevo : Contexto
nuevo = record {
  ax = 7;
  bx = 1;
  cx = 2;
  dx = 3;
  ex = 4;
  fx = 5;
  gx = 6;
  hx = 4294967295;
  pc = 9;
  base = 0;
  limite = 15;
}

abbrev guardada : Memoria
guardada = record con_dos {
  lista_de_procesos =
      record {
        pid = 1;
        base = 0;
        limite = 15;
        tids =
            hilo_inicial 0 instrucciones
            ∷ record {
              tid = 1;
              ax = 7;
              bx = 1;
              cx = 2;
              dx = 3;
              ex = 4;
              fx = 5;
              gx = 6;
              hx = 4294967295;
              pc = 9;
              lista_de_instrucciones = instrucciones;
            }
            ∷ [];
      }
      ∷ proceso2
      ∷ [];
}

guardar : actualizar_contexto referencia con_dos 1 1 nuevo ≡ ok guardada
unfolding actualizar_contexto obtener_proceso obtener_tid
guardar = refl

actualizar_contexto-obtener_contexto_example : obtener_contexto referencia guardada 1 1 ≡ ok nuevo
actualizar_contexto-obtener_contexto_example =
    actualizar_contexto-obtener_contexto referencia con_dos guardada 1 1 nuevo guardar

actualizar_contexto-otro_proceso_example :
    obtener_contexto referencia guardada 2 0 ≡ obtener_contexto referencia con_dos 2 0
actualizar_contexto-otro_proceso_example =
    actualizar_contexto-otro_proceso referencia con_dos guardada 1 1 nuevo 2 0 guardar
      (λ e. omega arith)

abbrev en_cero : Contexto
en_cero = record {
  ax = 0;
  bx = 0;
  cx = 0;
  dx = 0;
  ex = 0;
  fx = 0;
  gx = 0;
  hx = 0;
  pc = 0;
  base = 0;
  limite = 15;
}

leer_cero : obtener_contexto referencia con_dos 1 0 ≡ ok en_cero
unfolding obtener_contexto obtener_proceso obtener_tid
leer_cero = refl

actualizar_contexto-otro_hilo_example : obtener_contexto referencia guardada 1 0 ≡ ok en_cero
actualizar_contexto-otro_hilo_example =
    actualizar_contexto-otro_hilo referencia con_dos guardada 1 1 nuevo 0 en_cero guardar
      (λ e. omega arith) leer_cero

hallar_dos : obtener_proceso referencia 2 (proceso1 ∷ proceso2 ∷ []) ≡ some proceso2
unfolding obtener_proceso
hallar_dos = refl

eliminar_proceso_de_la_lista-ordenada_example :
    eliminar_proceso_de_la_lista referencia 2 (proceso1 ∷ proceso2 ∷ [])
    ≡ (some proceso2, sin_pid 2 (proceso1 ∷ proceso2 ∷ []))
eliminar_proceso_de_la_lista-ordenada_example =
    eliminar_proceso_de_la_lista-ordenada referencia 2 (proceso1 ∷ proceso2 ∷ []) proceso2
      ((omega arith, tt), (tt, tt)) hallar_dos

-- Where the list is not in the order of the ids, the process that is removed is another one.
eliminar_otro :
    eliminar_proceso_de_la_lista referencia 1 (proceso2 ∷ proceso1 ∷ [])
    ≡ (some proceso2, proceso1 ∷ [])
unfolding eliminar_proceso_de_la_lista
eliminar_otro = refl
