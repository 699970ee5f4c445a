-- ===== src/Memoria/Hilos.antt =====
-- The threads of a process (`t_TID`), and `crear_hilo`, which reads the instructions of one from
-- its file of pseudocode. The files are a parameter: what `fopen` finds under a path.
use tp_sistemas_operativos.Base.{
  ℕ, Option, none, some, List, [], ◌∷◌, ◌++◌, codes, strcmp_eq, ◌==◌, map, if◌then◌else◌,
}
use tp_sistemas_operativos.Base.Resultado.{Resultado, ok, salir}

-- `t_TID`; its fields `base` and `limite` are never used.
pub record Tid : Type 0 where
  pub tid : ℕ
  pub ax : ℕ
  pub bx : ℕ
  pub cx : ℕ
  pub dx : ℕ
  pub ex : ℕ
  pub fx : ℕ
  pub gx : ℕ
  pub hx : ℕ
  pub pc : ℕ
  pub lista_de_instrucciones : List (List ℕ)

-- The content of each file that can be opened.
abbrev pub Archivos : Type 0
Archivos = List ℕ → Option (List ℕ)

-- The lines that `getline` returns in turn, each with its line feed; only the last may lack one.
abbrev anteponer : ℕ → List (List ℕ) → List (List ℕ)
anteponer x [] = (x ∷ []) ∷ []
anteponer x (linea ∷ lineas) = (x ∷ linea) ∷ lineas

unfoldable pub lineas : List ℕ → List (List ℕ)
lineas [] = []
lineas (x ∷ xs) =
    let siguientes = lineas xs in if x == 10 then (10 ∷ []) ∷ siguientes else anteponer x siguientes

-- The text without its last byte: `linea[tamanio_del_nombre - 1] = '\0'`.
abbrev pub sin_ultimo : List ℕ → List ℕ
sin_ultimo [] = []
sin_ultimo (x ∷ []) = []
sin_ultimo (x ∷ y ∷ ys) = x ∷ sin_ultimo (y ∷ ys)

-- The instruction that the loop keeps of a line: the two that end a file stay whole, and any other
-- loses its last byte, which is meant to be the line feed. The files are text: no line holds a NUL.
unfoldable pub instruccion_de : List ℕ → List ℕ
instruccion_de linea =
    if strcmp_eq linea (codes "PROCESS_EXIT")
    then linea
    else if strcmp_eq linea (codes "THREAD_EXIT")
    then linea
    else sin_ultimo linea

unfoldable pub leer_instrucciones : List ℕ → List (List ℕ)
unfolding instruccion_de lineas
leer_instrucciones contenido = map instruccion_de (lineas contenido)

abbrev pub hilo_inicial : ℕ → List (List ℕ) → Tid
hilo_inicial tid instrucciones = record {
  tid = tid;
  ax = 0;
  bx = 0;
  cx = 0;
  dx = 0;
  ex = 0;
  fx = 0;
  gx = 0;
  hx = 0;
  pc = 0;
  lista_de_instrucciones = instrucciones;
}

-- A file that can not be opened ends the module.
unfoldable pub crear_hilo : Archivos → List ℕ → List ℕ → ℕ → Resultado Tid
unfolding leer_instrucciones
crear_hilo archivos path_instrucciones nombre_del_archivo tid =
    elim (archivos (path_instrucciones ++ nombre_del_archivo)) [
      | none ↦ salir
      | some contenido ↦ ok (hilo_inicial tid (leer_instrucciones contenido))
    ]
