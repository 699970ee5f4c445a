-- ===== src/Memoria/Huecos.antt =====
-- The free holes (`huecos_libres`): the search for one by first, best and worst fit, and the
-- return of a partition with the holes beside it merged. Each function is the C function of its
-- name, and returns the list that it leaves behind.
use tp_sistemas_operativos.Base.{
  ℕ, Bool, Option, none, some, List, codes, strcmp_eq, ltb, leb, ◌==◌, add32, sub32, modify_p,
  if◌then◌else◌,
}
use tp_sistemas_operativos.Commons.{Listas}

-- `t_hueco_libre`
pub record Hueco : Type 0 where
  pub inicio : ℕ
  pub tamanio : ℕ

abbrev pub menor_inicio : Hueco → Hueco → Bool
menor_inicio uno otro = ltb uno.inicio otro.inicio

abbrev pub menor_tamanio : Hueco → Hueco → Bool
menor_tamanio uno otro = leb uno.tamanio otro.tamanio

abbrev pub mayor_tamanio : Hueco → Hueco → Bool
mayor_tamanio uno otro = ltb otro.tamanio uno.tamanio

abbrev pub entra : ℕ → Hueco → Bool
entra tamanio_proceso h = leb tamanio_proceso h.tamanio

abbrev pub comparar_fin : ℕ → Hueco → Bool
comparar_fin posicion h = add32 h.inicio h.tamanio == posicion

abbrev pub comparar_inicio : ℕ → Hueco → Bool
comparar_inicio posicion h = h.inicio == posicion

module _ (c : Listas) where
  open c use {list_add, list_find, list_remove_by_condition, list_remove_element, list_sort}

  unfoldable pub first_fit : ℕ → List Hueco → Option Hueco × List Hueco
  first_fit tamanio_proceso huecos =
      list_remove_by_condition (list_sort huecos menor_inicio) (entra tamanio_proceso)

  unfoldable pub best_fit : ℕ → List Hueco → Option Hueco × List Hueco
  best_fit tamanio_proceso huecos =
      list_remove_by_condition (list_sort huecos menor_tamanio) (entra tamanio_proceso)

  unfoldable pub worst_fit : ℕ → List Hueco → Option Hueco × List Hueco
  worst_fit tamanio_proceso huecos =
      list_remove_by_condition (list_sort huecos mayor_tamanio) (entra tamanio_proceso)

  -- With an unknown algorithm the answer stays NULL.
  unfoldable pub buscar_hueco_libre : List ℕ → ℕ → List Hueco → Option Hueco × List Hueco
  buscar_hueco_libre algoritmo tamanio_proceso huecos =
      if strcmp_eq algoritmo (codes "FIRST")
      then first_fit tamanio_proceso huecos
      else if strcmp_eq algoritmo (codes "BEST")
      then best_fit tamanio_proceso huecos
      else if strcmp_eq algoritmo (codes "WORST")
      then worst_fit tamanio_proceso huecos
      else (none, huecos)

  unfoldable pub buscar_hueco_por_posicion_limite : ℕ → List Hueco → Option Hueco
  buscar_hueco_por_posicion_limite posicion huecos = list_find huecos (comparar_fin posicion)

  unfoldable pub buscar_hueco_por_posicion_inicial : ℕ → List Hueco → Option Hueco
  buscar_hueco_por_posicion_inicial posicion huecos = list_find huecos (comparar_inicio posicion)

  unfoldable pub crear_hueco : ℕ → ℕ → List Hueco → List Hueco
  crear_hueco base limite huecos =
      list_add huecos (record { inicio = base; tamanio = add32 (sub32 limite base) 1 })

  -- The branches of `consolidar_huecos_libres_aledanios`, on the hole to the left and the one to
  -- the right. A hole found is written through its pointer: it is the first that passes the search.
  unfoldable pub fusionar : ℕ → ℕ → List Hueco → Option Hueco → Option Hueco → List Hueco
  unfolding crear_hueco
  fusionar base limite huecos (some izquierdo) (some derecho) =
      let nuevo_tamanio =
        add32 (add32 izquierdo.tamanio (add32 (sub32 limite base) 1)) derecho.tamanio in
      list_remove_element
        (modify_p (comparar_fin base) (λ h. record h { tamanio = nuevo_tamanio }) huecos)
        (comparar_inicio (add32 limite 1))
  fusionar base limite huecos (some izquierdo) none =
      let nuevo_tamanio = add32 izquierdo.tamanio (add32 (sub32 limite base) 1) in
      modify_p (comparar_fin base) (λ h. record h { tamanio = nuevo_tamanio }) huecos
  fusionar base limite huecos none (some derecho) =
      let nuevo_tamanio = add32 (add32 (sub32 limite base) 1) derecho.tamanio in
      modify_p (comparar_inicio (add32 limite 1))
        (λ h. record h { inicio = base; tamanio = nuevo_tamanio }) huecos
  fusionar base limite huecos none none = crear_hueco base limite huecos

  unfoldable pub consolidar_huecos_libres_aledanios : ℕ → ℕ → List Hueco → List Hueco
  unfolding fusionar buscar_hueco_por_posicion_limite buscar_hueco_por_posicion_inicial
  consolidar_huecos_libres_aledanios base limite huecos =
      fusionar base limite huecos (buscar_hueco_por_posicion_limite base huecos)
        (buscar_hueco_por_posicion_inicial (add32 limite 1) huecos)
