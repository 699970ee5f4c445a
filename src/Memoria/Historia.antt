-- ===== src/Memoria/Historia.antt =====
-- The memory from its start through any requests of the kernel.
use tp_sistemas_operativos.Base.{
  length, ℕ, ◌≤◌, ◌<◌, ◌≡◌, ◌∙◌, refl, subst, inl, inr, Bool, Option, some, List, [], ◌∷◌, arith,
  ltb, if◌then◌else◌, u32_mod, modify_p, All-modify_p, All-find?, Bool-cases,
}
use tp_sistemas_operativos.Base.Resultado.{Resultado, ok, deref, >>=-eq-ok}
use tp_sistemas_operativos.Commons.{Listas}
use tp_sistemas_operativos.Memoria.Hilos.{crear_hilo}
use tp_sistemas_operativos.Memoria.Procesos.{
  Proceso, Memoria, Configuracion, Respuesta, crear_proceso, obtener_proceso,
}
use tp_sistemas_operativos.Memoria.Kernel.{
  Entorno, finalizacion_de_proceso, creacion_de_hilo, finalizacion_de_hilo, memory_dump,
  atender_codigo, atender_cliente,
}
use tp_sistemas_operativos.Memoria.Particion.{
  EsValida, Conserva, ProcesoEnRango, ocupados_en, duenios, crear_proceso-Conserva,
  finalizacion_de_proceso-Conserva,
}
use tp_sistemas_operativos.Utils.OpCode.{OpCode, constante}
use tp_sistemas_operativos.Utils.Recepcion.{
  recibir_operacion, recibir_un_entero, recibir_dos_enteros, recibir_enteros_y_valor2, cadena_c,
}
use tp_sistemas_operativos.Memoria.Inicio.{
  iniciar, atender_kernel, total, repartido, iniciar-EsValida, iniciar-duenios,
}

ok_fst :
    {A : Type 0} {m m' : Memoria} {r r' : A}
    → ◌≡◌ {A = Resultado (Memoria × A)} (ok (m, r)) (ok (m', r'))
    → m ≡ m'
ok_fst h = cc

ok_injective : {m m' : Memoria} → ok m ≡ ok m' → m ≡ m'
ok_injective h = cc

module _ (c : Listas) (cfg : Configuracion) (t : ℕ) (small : t < u32_mod) where
  Conserva-refl : (m : Memoria) → EsValida t m → Conserva t m m
  Conserva-refl m v = record { valida = v; duenios_iguales = λ d. refl }

  -- A write to a process that leaves its partition alone.
  escribir-Conserva :
      (m : Memoria) (p : Proceso → Bool) (f : Proceso → Proceso)
      → ((x : Proceso) → ((f x).base ≡ x.base) × ((f x).limite ≡ x.limite))
      → EsValida t m
      → Conserva t m (record m { lista_de_procesos = modify_p p f m.lista_de_procesos })
  escribir-Conserva m p f igual v = record {
    valida = record {
      huecos = v.huecos;
      procesos =
          All-modify_p (ProcesoEnRango t) p f m.lista_de_procesos
            (λ x e.
              rw ((igual x).0, (igual x).1)
                (All-find? (ProcesoEnRango t) p m.lista_de_procesos v.procesos e))
            v.procesos;
      espacio = v.espacio;
    };
    duenios_iguales = λ d. omega (arith, suma d m.lista_de_procesos);
  }
    where
      suma :
          (d : ℕ) (procesos : List Proceso)
          → ocupados_en d (modify_p p f procesos) ≡ ocupados_en d procesos
      suma d [] = refl
      suma d (x ∷ xs) = elim (Bool-cases (p x)) [
        | inl e ↦ rw (e, (igual x).0, (igual x).1)
        | inr e ↦ rw e (omega (arith, suma d xs))
      ]

  creacion_de_hilo-Conserva :
      (m m' : Memoria) (r : Respuesta) (pid tid : ℕ) (nombre : List ℕ)
      → EsValida t m
      → creacion_de_hilo c cfg m pid tid nombre ≡ ok (m', r)
      → Conserva t m m'
  unfolding creacion_de_hilo
  creacion_de_hilo-Conserva m m' r pid tid nombre v hecho =
      let (hilo, _, h1) =
        >>=-eq-ok (crear_hilo cfg.archivos cfg.path_instrucciones nombre tid) _ hecho in
      let (p, _, final) = >>=-eq-ok (deref (obtener_proceso c pid m.lista_de_procesos)) _ h1 in
      subst (Conserva t m) (ok_fst final) (escribir-Conserva m _ _ (λ x. (refl, refl)) v)

  finalizacion_de_hilo-Conserva :
      (m m' : Memoria) (r : Respuesta) (pid tid : ℕ)
      → EsValida t m
      → finalizacion_de_hilo c cfg m pid tid ≡ ok (m', r)
      → Conserva t m m'
  unfolding finalizacion_de_hilo
  finalizacion_de_hilo-Conserva m m' r pid tid v hecho =
      let (p, _, final) = >>=-eq-ok (deref (obtener_proceso c pid m.lista_de_procesos)) _ hecho in
      subst (Conserva t m) (ok_fst final) (escribir-Conserva m _ _ (λ x. (refl, refl)) v)

  -- Every request that the module answers keeps the memory valid and the owners of each address.
  atender_codigo-Conserva :
      (e : Entorno) (m m' : Memoria) (o : Option OpCode) (s r : List ℕ)
      → EsValida t m
      → atender_codigo c cfg e m o s ≡ ok (m', r)
      → Conserva t m m'
  unfolding atender_codigo
  atender_codigo-Conserva e m m' (some OpCode.creacion_de_proceso) s r v hecho =
      let (((pid, n, b), s'), _, h1) = >>=-eq-ok (recibir_enteros_y_valor2 s) _ hecho in
      let (nombre, _, h2) = >>=-eq-ok (cadena_c b) _ h1 in
      let ((m1, respuesta), h3, h4) = >>=-eq-ok (crear_proceso c cfg m pid n nombre) _ h2 in
      subst (Conserva t m) (ok_fst h4)
        (crear_proceso-Conserva c cfg t small m m1 respuesta pid n nombre v h3)
  atender_codigo-Conserva e m m' (some OpCode.finalizacion_de_proceso) s r v hecho =
      let ((pid, s'), _, h1) = >>=-eq-ok (recibir_un_entero s) _ hecho in
      let (m1, h2, h3) = >>=-eq-ok (finalizacion_de_proceso c cfg m pid) _ h1 in
      subst (Conserva t m) (ok_fst h3)
        (finalizacion_de_proceso-Conserva c cfg t small m m1 pid v h2)
  atender_codigo-Conserva e m m' (some OpCode.creacion_de_hilo) s r v hecho =
      let (((pid, tid, b), s'), _, h1) = >>=-eq-ok (recibir_enteros_y_valor2 s) _ hecho in
      let (nombre, _, h2) = >>=-eq-ok (cadena_c b) _ h1 in
      let ((m1, respuesta), h3, h4) = >>=-eq-ok (creacion_de_hilo c cfg m pid tid nombre) _ h2 in
      subst (Conserva t m) (ok_fst h4)
        (creacion_de_hilo-Conserva m m1 respuesta pid tid nombre v h3)
  atender_codigo-Conserva e m m' (some OpCode.finalizacion_de_hilo) s r v hecho =
      let (((pid, tid), s'), _, h1) = >>=-eq-ok (recibir_dos_enteros s) _ hecho in
      let ((m1, respuesta), h2, h3) = >>=-eq-ok (finalizacion_de_hilo c cfg m pid tid) _ h1 in
      subst (Conserva t m) (ok_fst h3) (finalizacion_de_hilo-Conserva m m1 respuesta pid tid v h2)
  atender_codigo-Conserva e m m' (some OpCode.memory_dump) s r v hecho =
      let (((pid, tid), s'), _, h1) = >>=-eq-ok (recibir_dos_enteros s) _ hecho in
      let (respuesta, _, h2) = >>=-eq-ok (memory_dump c cfg e m pid tid) _ h1 in
      subst (Conserva t m) (ok_fst h2) (Conserva-refl m v)
  atender_codigo-Conserva e m m' _ s r v hecho = cc

  pub atender_cliente-Conserva :
      (e : Entorno) (m m' : Memoria) (socket respuesta : List ℕ)
      → EsValida t m
      → atender_cliente c cfg e m socket ≡ ok (m', respuesta)
      → Conserva t m m'
  unfolding atender_cliente
  atender_cliente-Conserva e m m' socket respuesta v hecho =
      let ((codigo, s), _, h1) = >>=-eq-ok (recibir_operacion socket) _ hecho in
      atender_codigo-Conserva e m m' (constante codigo) s respuesta v h1

  -- So does any sequence of requests.
  pub atender_kernel-Conserva :
      (e : Entorno) (sockets : List (List ℕ)) (m m' : Memoria)
      → EsValida t m
      → atender_kernel c cfg e m sockets ≡ ok m'
      → Conserva t m m'
  unfolding atender_kernel
  atender_kernel-Conserva e [] m m' v hecho =
      subst (Conserva t m) (ok_injective hecho) (Conserva-refl m v)
  atender_kernel-Conserva e (socket ∷ sockets) m m' v hecho =
      let ((m1, respuesta), h1, h2) = >>=-eq-ok (atender_cliente c cfg e m socket) _ hecho in
      let uno = atender_cliente-Conserva e m m1 socket respuesta v h1 in
      let resto = atender_kernel-Conserva e sockets m1 m' uno.valida h2 in
      record {
        valida = resto.valida;
        duenios_iguales = λ d. resto.duenios_iguales d ∙ uno.duenios_iguales d;
      }

  -- From the start of the module on `t` bytes, fewer than 2 ^ 32, with partitions that fit in them,
  -- after any requests of the kernel that the module serves to the end: every address that the
  -- scheme shares out is in exactly one hole or partition of a process, no other address is in any,
  -- and the memory is valid.
  pub atender_kernel-duenios :
      (e : Entorno) (particiones espacio : List ℕ) (sockets : List (List ℕ)) (m : Memoria) (d : ℕ)
      → length espacio ≡ t
      → total particiones ≤ t
      → atender_kernel c cfg e (iniciar c cfg particiones espacio) sockets ≡ ok m
      → (duenios d m ≡ (if ltb d (repartido cfg particiones t) then 1 else 0)) × EsValida t m
  atender_kernel-duenios e particiones espacio sockets m d largo_t h hecho =
      let todo =
        atender_kernel-Conserva e sockets (iniciar c cfg particiones espacio) m
          (iniciar-EsValida c t small cfg particiones espacio largo_t h) hecho in
      (
        todo.duenios_iguales d ∙ iniciar-duenios c t small cfg particiones espacio d largo_t h,
        todo.valida,
      )
