-- ===== src/Memoria/Ocupacion.antt =====
-- How many free holes hold an address, and what the operations of memoria/src/mainMemoria.c on the
-- holes do to that number.
use tp_sistemas_operativos.Base.{
  ℕ, ◌+◌, ◌≤◌, ◌<◌, ◌≡◌, ◌∙◌, refl, sym, ap, inl, inr, Bool, true, Option, none, some, List, [],
  ◌∷◌, ◌&&◌, arith, leb, ltb, ==→eq, if◌then◌else◌, add32, sub32, u32_mod, sum_of, All, find?,
  modify_p, All-append, All-find?, All-erase_p, All-modify_p, find?_sound, sum_of-append,
  sum_of-erase_p, sum_of-modify_p, find?-modify_p,
}
use tp_sistemas_operativos.Commons.{Listas}
use tp_sistemas_operativos.Memoria.Huecos.{
  Hueco, comparar_fin, comparar_inicio, crear_hueco, fusionar, consolidar_huecos_libres_aledanios,
}

-- 1 if the segment of that start and length holds the address, 0 if not.
abbrev pub cubre : ℕ → ℕ → ℕ → ℕ
cubre direccion inicio largo =
    if leb inicio direccion && ltb direccion (inicio + largo) then 1 else 0

abbrev pub en_hueco : ℕ → Hueco → ℕ
en_hueco direccion h = cubre direccion h.inicio h.tamanio

-- How many holes hold the address.
abbrev pub libres_en : ℕ → List Hueco → ℕ
libres_en direccion = sum_of (en_hueco direccion)

-- The hole lies within the first `t` bytes.
abbrev pub EnRango : ℕ → Hueco → Type 0
EnRango t h = h.inicio + h.tamanio ≤ t

-- The length of the partition between a base and its last address.
abbrev pub largo : ℕ → ℕ → ℕ
largo base limite = add32 (sub32 limite base) 1

-- Segments end to end.
pub cubre-append :
    (d inicio medio a b total : ℕ)
    → inicio + a ≡ medio
    → total ≡ a + b
    → cubre d inicio total ≡ cubre d inicio a + cubre d medio b
cubre-append d inicio medio a b total e f = ground arith

cubre_empty : (d inicio : ℕ) → cubre d inicio 0 ≡ 0
cubre_empty d inicio = ground arith

-- What the two searches of `consolidar_huecos_libres_aledanios` say of the holes that they find.
comparar_fin_sound :
    (t posicion : ℕ) (h : Hueco)
    → t < u32_mod
    → EnRango t h
    → comparar_fin posicion h ≡ true
    → h.inicio + h.tamanio ≡ posicion
comparar_fin_sound t posicion h small v e =
    omega (arith, ==→eq (add32 h.inicio h.tamanio) posicion e)

comparar_inicio_sound :
    (posicion : ℕ) (h : Hueco) → comparar_inicio posicion h ≡ true → h.inicio ≡ posicion
comparar_inicio_sound posicion h e = ==→eq h.inicio posicion e

module _ (c : Listas) (t base limite : ℕ) (small : t < u32_mod)
    (fits : base + largo base limite ≤ t) (bounded : limite < u32_mod) where
  next_start : add32 limite 1 ≡ base + largo base limite
  next_start = omega arith

  pub crear_hueco-libres_en :
      (huecos : List Hueco) (d : ℕ)
      → libres_en d (crear_hueco c base limite huecos)
        ≡ libres_en d huecos + cubre d base (largo base limite)
  unfolding crear_hueco
  crear_hueco-libres_en huecos d =
      let nuevo : Hueco = record { inicio = base; tamanio = largo base limite } in
      rw (c.list_add_lem huecos nuevo)
        (omega (arith, sum_of-append (en_hueco d) huecos (nuevo ∷ [])))

  pub crear_hueco-EnRango :
      (huecos : List Hueco)
      → All (EnRango t) huecos
      → All (EnRango t) (crear_hueco c base limite huecos)
  unfolding crear_hueco
  crear_hueco-EnRango huecos v =
      rw (c.list_add_lem huecos _) (All-append (EnRango t) huecos _ v (fits, tt))

  -- The hole on the left, grown by the partition, and then by the hole on the right.
  izquierdo_facts :
      (huecos : List Hueco) (h : Hueco)
      → All (EnRango t) huecos
      → find? (comparar_fin base) huecos ≡ some h
      → (h.inicio + h.tamanio ≡ base)
        × (add32 h.tamanio (largo base limite) ≡ h.tamanio + largo base limite)
  izquierdo_facts huecos h v e =
      let fin =
        comparar_fin_sound t base h small (All-find? (EnRango t) _ huecos v e)
          (find?_sound _ huecos h e) in
      (fin, omega (arith, fin))

  derecho_facts :
      (huecos : List Hueco) (h : Hueco)
      → All (EnRango t) huecos
      → find? (comparar_inicio (add32 limite 1)) huecos ≡ some h
      → (h.inicio ≡ base + largo base limite) × (base + largo base limite + h.tamanio ≤ t)
  derecho_facts huecos h v e =
      let inicio =
        comparar_inicio_sound (add32 limite 1) h (find?_sound _ huecos h e) ∙ next_start in
      let rango = All-find? (EnRango t) _ huecos v e in (inicio, omega (arith, inicio, rango))

  izquierdo-libres_en :
      (huecos : List Hueco) (d : ℕ) (hi : Hueco)
      → All (EnRango t) huecos
      → find? (comparar_fin base) huecos ≡ some hi
      → libres_en d (fusionar c base limite huecos (some hi) none)
        ≡ libres_en d huecos + cubre d base (largo base limite)
  unfolding fusionar
  izquierdo-libres_en huecos d hi v i =
      let (fin, sumado) = izquierdo_facts huecos hi v i in
      let nuevo = add32 hi.tamanio (largo base limite) in
      let cambio =
        sum_of-modify_p (comparar_fin base) (en_hueco d) (λ h. record h { tamanio = nuevo }) huecos
          hi i in
      let crecido : cubre d hi.inicio nuevo ≡ en_hueco d hi + cubre d base (largo base limite) =
        cubre-append d hi.inicio base hi.tamanio _ nuevo fin sumado in
      omega (arith, cambio, crecido)

  derecho-libres_en :
      (huecos : List Hueco) (d : ℕ) (hd : Hueco)
      → All (EnRango t) huecos
      → find? (comparar_inicio (add32 limite 1)) huecos ≡ some hd
      → libres_en d (fusionar c base limite huecos none (some hd))
        ≡ libres_en d huecos + cubre d base (largo base limite)
  unfolding fusionar
  derecho-libres_en huecos d hd v e =
      let (inicio, rango) = derecho_facts huecos hd v e in
      let nuevo = add32 (largo base limite) hd.tamanio in
      let sumado : nuevo ≡ largo base limite + hd.tamanio = omega (arith, rango) in
      let cambio =
        sum_of-modify_p (comparar_inicio (add32 limite 1)) (en_hueco d)
          (λ h. record h { inicio = base; tamanio = nuevo }) huecos hd e in
      let crecido : cubre d base nuevo ≡ cubre d base (largo base limite) + en_hueco d hd =
        cubre-append d base hd.inicio (largo base limite) _ nuevo (sym inicio) sumado in
      omega (arith, cambio, crecido)

  ambos-libres_en :
      (huecos : List Hueco) (d : ℕ) (hi hd : Hueco)
      → All (EnRango t) huecos
      → find? (comparar_fin base) huecos ≡ some hi
      → find? (comparar_inicio (add32 limite 1)) huecos ≡ some hd
      → libres_en d (fusionar c base limite huecos (some hi) (some hd))
        ≡ libres_en d huecos + cubre d base (largo base limite)
  unfolding fusionar
  ambos-libres_en huecos d hi hd v i e =
      rw (c.list_remove_element_lem _ _)
        (elim (find?-modify_p (comparar_fin base) siguiente crecer (λ h. refl) huecos hd e) [
          | inl aparte ↦ omega (
            arith,
            cambio,
            crecido,
            sum_of-erase_p siguiente (en_hueco d) (modify_p (comparar_fin base) crecer huecos) hd
                aparte,
          )
          | inr (mismo, tras) ↦
              let igual : hi ≡ hd = cc (i, mismo) in
              omega (
                arith,
                cambio,
                vacio mismo,
                ap (en_hueco d) igual,
                ap (λ (h : Hueco). en_hueco d (crecer h)) igual,
                sum_of-erase_p siguiente (en_hueco d) (modify_p (comparar_fin base) crecer huecos)
                    (crecer hd) tras,
              )
        ])
    where
      siguiente : Hueco → Bool
      siguiente = comparar_inicio (add32 limite 1)

      nuevo : ℕ
      nuevo = add32 (add32 hi.tamanio (largo base limite)) hd.tamanio

      crecer : Hueco → Hueco
      crecer h = record h { tamanio = nuevo }

      cambio :
          libres_en d (modify_p (comparar_fin base) crecer huecos) + en_hueco d hi
          ≡ libres_en d huecos + en_hueco d (crecer hi)
      cambio = sum_of-modify_p (comparar_fin base) (en_hueco d) crecer huecos hi i

      sumado : nuevo ≡ hi.tamanio + (largo base limite + hd.tamanio)
      sumado =
          let (fin, cabe) = izquierdo_facts huecos hi v i in
          let (inicio, rango) = derecho_facts huecos hd v e in rw cabe (omega (arith, fin, rango))

      crecido :
          en_hueco d (crecer hi)
          ≡ en_hueco d hi + (cubre d base (largo base limite) + en_hueco d hd)
      crecido =
          let (fin, cabe) = izquierdo_facts huecos hi v i in
          let (inicio, rango) = derecho_facts huecos hd v e in
          cubre-append d hi.inicio base hi.tamanio _ nuevo fin sumado
          ∙ ap (λ (k : ℕ). en_hueco d hi + k)
              (cubre-append d base hd.inicio (largo base limite) hd.tamanio _ (sym inicio) refl)

      -- One hole that ends at the base and starts behind the partition: all of it is empty.
      vacio :
          find? (comparar_fin base) huecos ≡ some hd
          → (en_hueco d hd ≡ 0) × (cubre d base (largo base limite) ≡ 0)
      vacio mismo =
          let (fin, cabe) = izquierdo_facts huecos hd v mismo in
          let (inicio, rango) = derecho_facts huecos hd v e in (ground arith, ground arith)

  -- Whatever holes stand beside the partition, its addresses become free and no other changes.
  fusionar-libres_en :
      (huecos : List Hueco) (d : ℕ) (izquierdo derecho : Option Hueco)
      → All (EnRango t) huecos
      → find? (comparar_fin base) huecos ≡ izquierdo
      → find? (comparar_inicio (add32 limite 1)) huecos ≡ derecho
      → libres_en d (fusionar c base limite huecos izquierdo derecho)
        ≡ libres_en d huecos + cubre d base (largo base limite)
  unfolding fusionar
  fusionar-libres_en huecos d none none v i e = crear_hueco-libres_en huecos d
  fusionar-libres_en huecos d (some hi) none v i e = izquierdo-libres_en huecos d hi v i
  fusionar-libres_en huecos d none (some hd) v i e = derecho-libres_en huecos d hd v e
  fusionar-libres_en huecos d (some hi) (some hd) v i e = ambos-libres_en huecos d hi hd v i e

  fusionar-EnRango :
      (huecos : List Hueco) (izquierdo derecho : Option Hueco)
      → All (EnRango t) huecos
      → find? (comparar_fin base) huecos ≡ izquierdo
      → find? (comparar_inicio (add32 limite 1)) huecos ≡ derecho
      → All (EnRango t) (fusionar c base limite huecos izquierdo derecho)
  unfolding fusionar
  fusionar-EnRango huecos none none v i e = crear_hueco-EnRango huecos v
  fusionar-EnRango huecos (some hi) none v i e =
      let (fin, cabe) = izquierdo_facts huecos hi v i in
      All-modify_p (EnRango t) (comparar_fin base) _ huecos
        (λ h f. let igual : h ≡ hi = cc (i, f) in rw (igual, cabe) (omega (arith, fin))) v
  fusionar-EnRango huecos none (some hd) v i e =
      let (inicio, rango) = derecho_facts huecos hd v e in
      All-modify_p (EnRango t) (comparar_inicio (add32 limite 1)) _ huecos
        (λ h f. omega (arith, rango)) v
  fusionar-EnRango huecos (some hi) (some hd) v i e =
      let (fin, cabe) = izquierdo_facts huecos hi v i in
      let (inicio, rango) = derecho_facts huecos hd v e in
      rw (c.list_remove_element_lem _ _) (
        All-erase_p (EnRango t) _ _ (
          All-modify_p (EnRango t) (comparar_fin base) _ huecos
            (λ h f. let igual : h ≡ hi = cc (i, f) in rw (igual, cabe) (omega (arith, fin, rango)))
            v))

  -- In a memory of `t` bytes, fewer than 2 ^ 32, with every hole and the partition inside it: giving
  -- the partition from `base` to `limite` back, with the merges of any of the four cases, makes each
  -- of its addresses free once more than before, and changes no other address.
  pub consolidar-libres_en :
      (huecos : List Hueco) (d : ℕ)
      → All (EnRango t) huecos
      → libres_en d (consolidar_huecos_libres_aledanios c base limite huecos)
        ≡ libres_en d huecos + cubre d base (largo base limite)
  unfolding consolidar_huecos_libres_aledanios
  consolidar-libres_en huecos d v =
      fusionar-libres_en huecos d _ _ v (sym (c.list_find_lem huecos (comparar_fin base)))
        (sym (c.list_find_lem huecos (comparar_inicio (add32 limite 1))))

  pub consolidar-EnRango :
      (huecos : List Hueco)
      → All (EnRango t) huecos
      → All (EnRango t) (consolidar_huecos_libres_aledanios c base limite huecos)
  unfolding consolidar_huecos_libres_aledanios
  consolidar-EnRango huecos v =
      fusionar-EnRango huecos _ _ v (sym (c.list_find_lem huecos (comparar_fin base)))
        (sym (c.list_find_lem huecos (comparar_inicio (add32 limite 1))))
