-- ===== src/Memoria/Particion.antt =====
-- How many holes and processes hold an address, and what the creation and the end of a process in
-- memoria/src/mainMemoria.c do to that number.
use mathlib.Core.List.Perm
use native.Mathlib.Bridge.{le_prop}
use tp_sistemas_operativos.Base.{
  ℕ, ◌+◌, ◌≤◌, ◌<◌, ◌≡◌, subst, inl, inr, Bool, true, false, Option, none, some, List, [], ◌∷◌,
  ◌&&◌, arith, ltb, codes, strcmp_eq, if◌then◌else◌, add32, sub32, u32_mod, sum_of, All, Perm,
  find?, length, All-append, All-find?, All-erase_p, All-perm, sum_of-append, sum_of-perm,
  sum_of-erase_p, Bool-cases,
}
use tp_sistemas_operativos.Base.Resultado.{Resultado, ok, deref, >>=-eq-ok, deref-eq-ok}
use tp_sistemas_operativos.Commons.{Listas}
use tp_sistemas_operativos.Memoria.Ajuste.{Elige, first_fit-Elige, best_fit-Elige, worst_fit-Elige}
use tp_sistemas_operativos.Memoria.Hilos.{Tid, crear_hilo}
use tp_sistemas_operativos.Memoria.Huecos.{
  Hueco, buscar_hueco_libre, crear_hueco, consolidar_huecos_libres_aledanios,
}
use tp_sistemas_operativos.Memoria.Ocupacion.{
  cubre, cubre-append, libres_en, en_hueco, EnRango, largo, crear_hueco-libres_en,
  crear_hueco-EnRango, consolidar-libres_en, consolidar-EnRango,
}
use tp_sistemas_operativos.Memoria.Procesos.{
  Proceso, Memoria, Configuracion, Respuesta, alojar, crear_proceso_en, crear_proceso,
  tiene_pid_desde, eliminar_proceso_de_la_lista,
}
use tp_sistemas_operativos.Memoria.Kernel.{finalizacion_de_proceso}

abbrev pub en_proceso : ℕ → Proceso → ℕ
en_proceso direccion p = cubre direccion p.base (largo p.base p.limite)

-- How many processes hold the address.
abbrev pub ocupados_en : ℕ → List Proceso → ℕ
ocupados_en direccion = sum_of (en_proceso direccion)

-- How many holes and processes hold the address.
abbrev pub duenios : ℕ → Memoria → ℕ
duenios direccion m =
    libres_en direccion m.huecos_libres + ocupados_en direccion m.lista_de_procesos

-- The partition of the process lies within the first `t` bytes.
abbrev pub ProcesoEnRango : ℕ → Proceso → Type 0
ProcesoEnRango t p = (p.base + largo p.base p.limite ≤ t) × (p.limite < u32_mod)

pub record EsValida (t : ℕ) (m : Memoria) : Type 0 where
  pub huecos : All (EnRango t) m.huecos_libres
  pub procesos : All (ProcesoEnRango t) m.lista_de_procesos
  pub espacio : length m.espacio ≡ t

-- `m'` is as valid as `m`, and every address has as many owners as before.
pub record Conserva (t : ℕ) (m m' : Memoria) : Type 0 where
  pub valida : EsValida t m'
  pub duenios_iguales : (d : ℕ) → duenios d m' ≡ duenios d m

-- The list before the search, from what the search returned.
abbrev devuelto : Option Hueco × List Hueco → List Hueco
devuelto (none, resto) = resto
devuelto (some h, resto) = h ∷ resto

Elige-perm :
    (R : Hueco → Hueco → Type 0) (n : ℕ) (huecos : List Hueco) (r : Option Hueco × List Hueco)
    → Elige R n huecos r
    → Perm (devuelto r) huecos
Elige-perm R n huecos (none, resto) e = e.1
Elige-perm R n huecos (some h, resto) e = e.2

buscar_hueco_libre-perm :
    (c : Listas) (algoritmo : List ℕ) (n : ℕ) (huecos : List Hueco)
    → Perm (devuelto (buscar_hueco_libre c algoritmo n huecos)) huecos
unfolding buscar_hueco_libre
buscar_hueco_libre-perm c algoritmo n huecos =
    elim (Bool-cases (strcmp_eq algoritmo (codes "FIRST"))) [
      | inl f ↦ rw f (Elige-perm _ n huecos _ (first_fit-Elige c n huecos))
      | inr f ↦ rw f (elim (Bool-cases (strcmp_eq algoritmo (codes "BEST"))) [
        | inl b ↦ rw b (Elige-perm _ n huecos _ (best_fit-Elige c n huecos))
        | inr b ↦ rw b (elim (Bool-cases (strcmp_eq algoritmo (codes "WORST"))) [
          | inl w ↦ rw w (Elige-perm _ n huecos _ (worst_fit-Elige c n huecos))
          | inr w ↦ rw w (Perm.refl huecos)
        ])
      ])
    ]

memoria_de :
    {m m' : Memoria} {r r' : Respuesta}
    → ◌≡◌ {A = Resultado (Memoria × Respuesta)} (ok (m, r)) (ok (m', r'))
    → m ≡ m'
memoria_de h = cc

valor_de : {m m' : Memoria} → ok m ≡ ok m' → m ≡ m'
valor_de h = cc

module _ (c : Listas) (cfg : Configuracion) (t : ℕ) (small : t < u32_mod) where
  -- The partition that starts a hole, or is the whole of it.
  largo_nuevo : (inicio n : ℕ) → inicio + n ≤ t → largo inicio (sub32 (add32 inicio n) 1) ≡ n
  largo_nuevo inicio n h = omega arith

  agregar_proceso :
      (m : Memoria) (huecos : List Hueco) (p : Proceso)
      → All (EnRango t) huecos
      → EsValida t m
      → ProcesoEnRango t p
      → EsValida t (record m {
        huecos_libres = huecos;
        lista_de_procesos = c.list_add m.lista_de_procesos p;
      })
  agregar_proceso m huecos p hs v e = record {
    huecos = hs;
    procesos =
        rw (c.list_add_lem m.lista_de_procesos p)
          (All-append (ProcesoEnRango t) m.lista_de_procesos (p ∷ []) v.procesos (e, tt));
    espacio = v.espacio;
  }

  ocupados_en-list_add :
      (procesos : List Proceso) (p : Proceso) (d : ℕ)
      → ocupados_en d (c.list_add procesos p) ≡ ocupados_en d procesos + en_proceso d p
  ocupados_en-list_add procesos p d =
      rw (c.list_add_lem procesos p) (omega (arith, sum_of-append (en_proceso d) procesos (p ∷ [])))

  libres_en-list_add :
      (huecos : List Hueco) (h : Hueco) (d : ℕ)
      → libres_en d (c.list_add huecos h) ≡ libres_en d huecos + en_hueco d h
  libres_en-list_add huecos h d =
      rw (c.list_add_lem huecos h) (omega (arith, sum_of-append (en_hueco d) huecos (h ∷ [])))

  -- The new memory is valid, and the addresses of the hole, which was in no list, have owners again.
  abbrev Aloja : Memoria → Hueco → Memoria → Type 0
  Aloja m h m' = EsValida t m' × ((d : ℕ) → duenios d m' ≡ duenios d m + en_hueco d h)

  alojar_parte :
      (m : Memoria) (h : Hueco) (pid n : ℕ) (tids : List Tid)
      → EsValida t m
      → EnRango t h
      → n < h.tamanio
      → Aloja m h (record m {
        huecos_libres =
            c.list_add m.huecos_libres
              (record { inicio = add32 h.inicio n; tamanio = sub32 h.tamanio n });
        lista_de_procesos = c.list_add m.lista_de_procesos (record {
          pid = pid;
          base = h.inicio;
          limite = sub32 (add32 h.inicio n) 1;
          tids = tids;
        });
      })
  alojar_parte m h pid n tids v e lt = (
    agregar_proceso m _ proceso
        (rw (c.list_add_lem m.huecos_libres resto)
          (All-append (EnRango t) m.huecos_libres (resto ∷ []) v.huecos (omega arith, tt)))
        v (rw medida (omega arith), omega arith),
    λ d. omega (
      arith,
      libres_en-list_add m.huecos_libres resto d,
      ocupados_en-list_add m.lista_de_procesos proceso d,
      partes d,
    ),
  )
    where
      resto : Hueco
      resto = record { inicio = add32 h.inicio n; tamanio = sub32 h.tamanio n }

      proceso : Proceso
      proceso = record {
        pid = pid;
        base = h.inicio;
        limite = sub32 (add32 h.inicio n) 1;
        tids = tids;
      }

      medida : largo h.inicio (sub32 (add32 h.inicio n) 1) ≡ n
      medida = largo_nuevo h.inicio n (omega arith)

      partes : (d : ℕ) → en_hueco d h ≡ en_proceso d proceso + en_hueco d resto
      partes d = rw medida (
          cubre-append d h.inicio (add32 h.inicio n) n (sub32 h.tamanio n) h.tamanio (omega arith)
            (omega arith))

  alojar_todo :
      (m : Memoria) (h : Hueco) (pid : ℕ) (tids : List Tid)
      → EsValida t m
      → EnRango t h
      → Aloja m h (record m {
        lista_de_procesos = c.list_add m.lista_de_procesos (record {
          pid = pid;
          base = h.inicio;
          limite = sub32 (add32 h.inicio h.tamanio) 1;
          tids = tids;
        });
      })
  alojar_todo m h pid tids v e = (
    agregar_proceso m _ proceso v.huecos v (rw medida e, omega arith),
    λ d. rw (ocupados_en-list_add m.lista_de_procesos proceso d, medida) (omega arith),
  )
    where
      proceso : Proceso
      proceso = record {
        pid = pid;
        base = h.inicio;
        limite = sub32 (add32 h.inicio h.tamanio) 1;
        tids = tids;
      }

      medida : largo h.inicio (sub32 (add32 h.inicio h.tamanio) 1) ≡ h.tamanio
      medida = largo_nuevo h.inicio h.tamanio e

  alojar-Aloja :
      (m m' : Memoria) (r : Respuesta) (pid n : ℕ) (nombre : List ℕ) (h : Hueco)
      → EsValida t m
      → EnRango t h
      → alojar c cfg m pid n nombre h ≡ ok (m', r)
      → Aloja m h m'
  unfolding alojar
  alojar-Aloja m m' r pid n nombre h v e hecho =
      elim (Bool-cases (strcmp_eq cfg.esquema (codes "DINAMICAS") && ltb n h.tamanio)) [
        | inl parte ↦
            let (tid, _, final) =
              >>=-eq-ok (crear_hilo cfg.archivos cfg.path_instrucciones nombre 0) _
                (rw parte at hecho) in
            subst (Aloja m h) (memoria_de final) (alojar_parte m h pid n _ v e (ground arith))
        | inr todo ↦
            let (tid, _, final) =
              >>=-eq-ok (crear_hilo cfg.archivos cfg.path_instrucciones nombre 0) _
                (rw todo at hecho) in
            subst (Aloja m h) (memoria_de final) (alojar_todo m h pid _ v e)
      ]

  -- What is left after a search, with the hole that it took out.
  busqueda-EsValida :
      (m : Memoria) (b : Option Hueco × List Hueco)
      → EsValida t m
      → Perm (devuelto b) m.huecos_libres
      → All (EnRango t) (devuelto b)
        × ((d : ℕ) → libres_en d (devuelto b) ≡ libres_en d m.huecos_libres)
  busqueda-EsValida m b v p =
      (All-perm (EnRango t) (λ h. le_prop) (Perm.symm p) v.huecos, λ d. sum_of-perm (en_hueco d) p)

  crear_proceso_en-Conserva :
      (m m' : Memoria) (r : Respuesta) (pid n : ℕ) (nombre : List ℕ) (b : Option Hueco × List Hueco)
      → EsValida t m
      → Perm (devuelto b) m.huecos_libres
      → crear_proceso_en c cfg (record m { huecos_libres = b.1 }) pid n nombre b.0 ≡ ok (m', r)
      → Conserva t m m'
  unfolding crear_proceso_en
  crear_proceso_en-Conserva m m' r pid n nombre (none, resto) v p hecho =
      let (rango, suma) = busqueda-EsValida m (none, resto) v p in
      subst (Conserva t m) (memoria_de hecho) (record {
        valida = record { huecos = rango; procesos = v.procesos; espacio = v.espacio };
        duenios_iguales = λ d. omega (arith, suma d);
      })
  crear_proceso_en-Conserva m m' r pid n nombre (some h, resto) v p hecho =
      let (rango, suma) = busqueda-EsValida m (some h, resto) v p in
      let (valida, iguales) =
        alojar-Aloja (record m { huecos_libres = resto }) m' r pid n nombre h
          (record { huecos = rango.1; procesos = v.procesos; espacio = v.espacio }) rango.0 hecho in
      record { valida = valida; duenios_iguales = λ d. omega (arith, iguales d, suma d) }

  -- In a valid memory of `t` bytes, fewer than 2 ^ 32, a creation of a process that answers, with or
  -- without success, leaves the memory valid, and every address in as many holes and partitions of
  -- processes as before.
  pub crear_proceso-Conserva :
      (m m' : Memoria) (r : Respuesta) (pid n : ℕ) (nombre : List ℕ)
      → EsValida t m
      → crear_proceso c cfg m pid n nombre ≡ ok (m', r)
      → Conserva t m m'
  unfolding crear_proceso
  crear_proceso-Conserva m m' r pid n nombre v hecho =
      crear_proceso_en-Conserva m m' r pid n nombre _ v
        (buscar_hueco_libre-perm c cfg.algoritmo_busqueda n m.huecos_libres) hecho

  -- The hole that a finished process leaves, in either scheme.
  devolver-EnRango :
      (huecos : List Hueco) (p : Proceso) (dinamicas : Bool)
      → All (EnRango t) huecos
      → ProcesoEnRango t p
      → All (EnRango t) (
          if dinamicas
          then consolidar_huecos_libres_aledanios c p.base p.limite huecos
          else crear_hueco c p.base p.limite huecos)
  devolver-EnRango huecos p true v e = consolidar-EnRango c t p.base p.limite small e.0 e.1 huecos v
  devolver-EnRango huecos p false v e =
      crear_hueco-EnRango c t p.base p.limite small e.0 e.1 huecos v

  devolver-libres_en :
      (huecos : List Hueco) (p : Proceso) (dinamicas : Bool) (d : ℕ)
      → All (EnRango t) huecos
      → ProcesoEnRango t p
      → libres_en d (
          if dinamicas
          then consolidar_huecos_libres_aledanios c p.base p.limite huecos
          else crear_hueco c p.base p.limite huecos)
        ≡ libres_en d huecos + en_proceso d p
  devolver-libres_en huecos p true d v e =
      consolidar-libres_en c t p.base p.limite small e.0 e.1 huecos d v
  devolver-libres_en huecos p false d v e =
      crear_hueco-libres_en c t p.base p.limite small e.0 e.1 huecos d

  -- In a valid memory of `t` bytes, fewer than 2 ^ 32, an end of a process that does not fault, in
  -- either scheme, leaves the memory valid, and every address in as many holes and partitions of
  -- processes as before.
  pub finalizacion_de_proceso-Conserva :
      (m m' : Memoria) (pid : ℕ)
      → EsValida t m
      → finalizacion_de_proceso c cfg m pid ≡ ok m'
      → Conserva t m m'
  unfolding finalizacion_de_proceso eliminar_proceso_de_la_lista
  finalizacion_de_proceso-Conserva m m' pid v hecho =
      let (p, hallado, final) =
        >>=-eq-ok (deref (find? (tiene_pid_desde pid) m.lista_de_procesos)) _ (
          rw (c.list_remove_by_condition_lem m.lista_de_procesos (tiene_pid_desde pid)) at hecho) in
      let esta = deref-eq-ok (find? (tiene_pid_desde pid) m.lista_de_procesos) hallado in
      let rango = All-find? (ProcesoEnRango t) _ m.lista_de_procesos v.procesos esta in
      let dinamicas = strcmp_eq cfg.esquema (codes "DINAMICAS") in
      subst (Conserva t m) (valor_de final) (record {
        valida = record {
          huecos = devolver-EnRango m.huecos_libres p dinamicas v.huecos rango;
          procesos = All-erase_p (ProcesoEnRango t) _ m.lista_de_procesos v.procesos;
          espacio = v.espacio;
        };
        duenios_iguales = λ d. omega (
          arith,
          devolver-libres_en m.huecos_libres p dinamicas d v.huecos rango,
          sum_of-erase_p (tiene_pid_desde pid) (en_proceso d) m.lista_de_procesos p esta,
        );
      })
