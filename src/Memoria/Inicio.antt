-- ===== src/Memoria/Inicio.antt =====
-- `main` of mainMemoria.c: the holes that the scheme asks for at the start, and the service of the
-- kernel's requests one after the other. `PARTICIONES` is the list of the numbers that its entries
-- stand for.
use tp_sistemas_operativos.Base.{
  length, ℕ, ◌+◌, ◌≤◌, ◌<◌, ◌≡◌, refl, inl, inr, List, [], ◌∷◌, ◌++◌, arith, ltb, codes, strcmp_eq,
  if◌then◌else◌, add32, u32_mod, sum_of, All, All-append, sum_of-append, Bool-cases,
}
use tp_sistemas_operativos.Base.Resultado.{Resultado, ok, ◌>>=◌}
use tp_sistemas_operativos.Commons.{Listas}
use tp_sistemas_operativos.Memoria.Huecos.{Hueco}
use tp_sistemas_operativos.Memoria.Ocupacion.{cubre, cubre-append, libres_en, en_hueco, EnRango}
use tp_sistemas_operativos.Memoria.Procesos.{Memoria, Configuracion}
use tp_sistemas_operativos.Memoria.Kernel.{Entorno, atender_cliente}
use tp_sistemas_operativos.Memoria.Particion.{EsValida, duenios}

module _ (c : Listas) where
  open c use {list_add}

  -- The loop over the configured partitions: one hole behind the other.
  unfoldable pub agregar_particiones : ℕ → List ℕ → List Hueco → List Hueco
  agregar_particiones inicio_de_particion [] huecos = huecos
  agregar_particiones inicio_de_particion (n ∷ ns) huecos =
      agregar_particiones (add32 inicio_de_particion n) ns
        (list_add huecos (record { inicio = inicio_de_particion; tamanio = n }))

  -- `main`, up to the threads: the holes that the scheme asks for, and no process. `espacio` is the
  -- block of TAM_MEMORIA bytes that `malloc` gives, whatever is in it.
  unfoldable pub iniciar : Configuracion → List ℕ → List ℕ → Memoria
  unfolding agregar_particiones
  iniciar cfg particiones espacio = record {
    huecos_libres =
        if strcmp_eq cfg.esquema (codes "FIJAS")
        then agregar_particiones 0 particiones []
        else list_add [] (record { inicio = 0; tamanio = length espacio });
    lista_de_procesos = [];
    espacio = espacio;
  }

  -- The requests of the kernel, one connection after the other.
  unfoldable pub atender_kernel :
      Configuracion → Entorno → Memoria → List (List ℕ) → Resultado Memoria
  atender_kernel cfg e m [] = ok m
  atender_kernel cfg e m (socket ∷ sockets) = do
    (m', respuesta) ← atender_cliente c cfg e m socket
    atender_kernel cfg e m' sockets

abbrev pub total : List ℕ → ℕ
total = sum_of (λ n. n)

-- How many bytes the scheme shares out.
abbrev pub repartido : Configuracion → List ℕ → ℕ → ℕ
repartido cfg particiones tamanio_memoria =
    if strcmp_eq cfg.esquema (codes "FIJAS") then total particiones else tamanio_memoria

module _ (c : Listas) (t : ℕ) (small : t < u32_mod) where
  -- The holes of the fixed partitions, end to end.
  agregar_particiones-libres_en :
      (inicio : ℕ) (ns : List ℕ) (huecos : List Hueco) (d : ℕ)
      → inicio + total ns ≤ t
      → libres_en d (agregar_particiones c inicio ns huecos)
        ≡ libres_en d huecos + cubre d inicio (total ns)
  unfolding agregar_particiones
  agregar_particiones-libres_en inicio [] huecos d h = ground arith
  agregar_particiones-libres_en inicio (n ∷ ns) huecos d h =
      let hueco : Hueco = record { inicio = inicio; tamanio = n } in
      rw (c.list_add_lem huecos hueco) (
        omega (
          arith,
          agregar_particiones-libres_en (add32 inicio n) ns (huecos ++ (hueco ∷ [])) d
              (omega arith),
          sum_of-append (en_hueco d) huecos (hueco ∷ []),
          cubre-append d inicio (add32 inicio n) n (total ns) (n + total ns) (omega arith) refl,
        ))

  agregar_particiones-EnRango :
      (inicio : ℕ) (ns : List ℕ) (huecos : List Hueco)
      → inicio + total ns ≤ t
      → All (EnRango t) huecos
      → All (EnRango t) (agregar_particiones c inicio ns huecos)
  unfolding agregar_particiones
  agregar_particiones-EnRango inicio [] huecos h v = v
  agregar_particiones-EnRango inicio (n ∷ ns) huecos h v =
      agregar_particiones-EnRango (add32 inicio n) ns _ (omega arith)
        (rw (c.list_add_lem huecos _) (All-append (EnRango t) huecos _ v (omega arith, tt)))

  -- At the start the memory is valid, and each byte that the scheme shares out is in one hole.
  pub iniciar-EsValida :
      (cfg : Configuracion) (particiones espacio : List ℕ)
      → length espacio ≡ t
      → total particiones ≤ t
      → EsValida t (iniciar c cfg particiones espacio)
  unfolding iniciar
  iniciar-EsValida cfg particiones espacio largo_t h = record {
    huecos = elim (Bool-cases (strcmp_eq cfg.esquema (codes "FIJAS"))) [
      | inl e ↦ rw e (agregar_particiones-EnRango 0 particiones [] (omega arith) tt)
      | inr e ↦
          rw (e, c.list_add_lem {A = Hueco} [] (record { inicio = 0; tamanio = length espacio }))
            (omega arith, tt)
    ];
    procesos = tt;
    espacio = largo_t;
  }

  pub iniciar-duenios :
      (cfg : Configuracion) (particiones espacio : List ℕ) (d : ℕ)
      → length espacio ≡ t
      → total particiones ≤ t
      → duenios d (iniciar c cfg particiones espacio)
        ≡ (if ltb d (repartido cfg particiones t) then 1 else 0)
  unfolding iniciar
  iniciar-duenios cfg particiones espacio d largo_t h =
      elim (Bool-cases (strcmp_eq cfg.esquema (codes "FIJAS"))) [
        | inl e ↦
            rw (e, agregar_particiones-libres_en 0 particiones [] d (omega arith)) (ground arith)
        | inr e ↦
            rw (e, c.list_add_lem {A = Hueco} [] (record { inicio = 0; tamanio = length espacio }))
              (ground arith)
      ]
