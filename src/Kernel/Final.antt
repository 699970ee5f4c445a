-- ===== src/Kernel/Final.antt =====
-- The loop of `finalizar_proceso` of kernel/src/mainkernel.c, which takes out of the threads of the process
-- the one at its counter, and then counts on.
use tp_sistemas_operativos.Base.{
  ℕ, zero, suc, ◌+◌, ◌-◌, ◌*◌, ◌<◌, ◌≤◌, ◌≡◌, refl, ap, ◌∙◌, arith, Option, none, some, List, [],
  ◌∷◌, length, erase_idx, ltb, ==_self, Bool-cases, inl, inr,
}
use tp_sistemas_operativos.Base.Resultado.{Resultado, ok, salir, falla, deref, ◌>>=◌}
use tp_sistemas_operativos.Commons.{Listas}
use tp_sistemas_operativos.Kernel.Asegura.{
  Asegura, Asegura-bind, Asegura-luego, Asegura-ok, Asegura-if, Asegura-weaken,
}
use tp_sistemas_operativos.Kernel.Avisos.{notificar_finalizacion_hilo}
use tp_sistemas_operativos.Kernel.Bajas.{
  es_exit, eliminar_de_ready, eliminar_de_colas, asignar_al_primero, desbloquear, liberar_recurso,
  liberar_recursos, liberar_recursos_mutex, despertar_por_join, finalizar_hilo,
  finalizar_si_no_termino, finalizar_hilos,
}
use tp_sistemas_operativos.Kernel.Colas.{usamos_multicolas, obtener_cola_multinivel, pasar_a_ready}
use tp_sistemas_operativos.Kernel.Intactos.{
  Intactos, con_hilo-Intactos, pasar_a_ready-Intactos, desbloquear-Intactos,
}
use tp_sistemas_operativos.Kernel.Estado.{
  Kernel, Tcb, Pcb, Mutex, Entorno, actualizar, con_hilo, con_proceso, con_recurso, remover_hilo,
  remover_mutex, pid_del_hilo, apunta_a,
}
use tp_sistemas_operativos.Cpu.Mmu.{numeros}
use tp_sistemas_operativos.Utils.OpCode.{OpCode}
use tp_sistemas_operativos.Utils.Recepcion.{recibir_operacion, recibir_una_cadena}

abbrev Mismos : Kernel → Kernel → Type 0
Mismos k k' = k'.procesos ≡ k.procesos

Intactos-Mismos : (k k' : Kernel) → Intactos k k' → Mismos k k'
Intactos-Mismos k k' h = ap (λ (s : (ℕ → Option Pcb) × (ℕ → Option Mutex)). s.0) h

con_hilo-Mismos : (k : Kernel) (a : ℕ) (f : Tcb → Tcb) → Asegura (Mismos k) (con_hilo k a f)
con_hilo-Mismos k a f = Asegura-weaken (con_hilo-Intactos k a f) (Intactos-Mismos k)

con_recurso-Mismos :
    (k : Kernel) (m : ℕ) (f : Mutex → Mutex) → Asegura (Mismos k) (con_recurso k m f)
unfolding con_recurso
con_recurso-Mismos k m f = Asegura-luego (deref (k.recursos m)) λ r h. Asegura-ok _ refl

con_proceso-escrito :
    (k : Kernel) (p : ℕ) (f : Pcb → Pcb) (q : Pcb)
    → k.procesos p ≡ some q
    → Asegura (λ k'. k'.procesos p ≡ some (f q)) (con_proceso k p f)
unfolding con_proceso
con_proceso-escrito k p f q hq = rw hq (Asegura-ok _ (rw (==_self p)))

-- Two blocks that begin alike and go on alike.
>>=-igual {ℓ κ μ} :
    {A : Type ℓ} {B : Type κ} {P : A → Type μ} (m : Resultado A) (f g : A → Resultado B)
    → Asegura P m
    → ((a : A) → P a → f a ≡ g a)
    → (m >>= f) ≡ (m >>= g)
>>=-igual falla f g h igual = refl
>>=-igual salir f g h igual = refl
>>=-igual (ok a) f g h igual = igual a (h.cumple a refl)

length-erase_idx {ℓ} :
    {A : Type ℓ} (xs : List A) (i : ℕ) → i < length xs → length (erase_idx xs i) + 1 ≡ length xs
length-erase_idx [] i h = absurd (omega arith)
length-erase_idx (x ∷ xs) zero h = omega arith
length-erase_idx (x ∷ xs) (suc i) h = omega (arith, length-erase_idx xs i (omega arith))

module _ (c : Listas) (e : Entorno) where
  pasar_a_ready-Mismos : (k : Kernel) (a : ℕ) → Asegura (Mismos k) (pasar_a_ready c e k a)
  pasar_a_ready-Mismos k a = Asegura-weaken (pasar_a_ready-Intactos c e k a) (Intactos-Mismos k)

  desbloquear-Mismos : (k : Kernel) (tid pid : ℕ) → Asegura (Mismos k) (desbloquear c e k tid pid)
  desbloquear-Mismos k tid pid =
      Asegura-weaken (desbloquear-Intactos c e k tid pid) (Intactos-Mismos k)

  eliminar_de_ready-Mismos :
      (k : Kernel) (t : Tcb) (pid : ℕ) → Asegura (Mismos k) (eliminar_de_ready c e k t pid)
  unfolding eliminar_de_ready
  eliminar_de_ready-Mismos k t pid =
      Asegura-luego (remover_hilo c k k.hilos_en_ready t.tid pid) λ (h1, ready) menos.
        let k1 = record k { hilos_en_ready = ready } in
        Asegura-if (usamos_multicolas e)
          (λ cmn.
            Asegura-luego (obtener_cola_multinivel c e k.colas_de_ready t.prioridad) λ q hallada.
              Asegura-if (ltb 0 (c.list_size q.cola_multinivel))
                (λ hay.
                  Asegura-luego (remover_hilo c k1 q.cola_multinivel t.tid pid)
                    λ (h2, resto) menos2. Asegura-ok _ refl)
                (λ vacia. Asegura-ok _ refl))
          (λ otro. Asegura-ok _ refl)

  eliminar_de_colas-Mismos : (k : Kernel) (a : ℕ) → Asegura (Mismos k) (eliminar_de_colas c e k a)
  unfolding eliminar_de_colas
  eliminar_de_colas-Mismos k a = Asegura-luego (deref (k.hilos a)) λ t h.
      Asegura-luego (pid_del_hilo k t) λ pid h.
        Asegura-luego (remover_hilo c k k.hilos_en_block t.tid pid)
          λ (h, block) sacado. resto t pid h block
    where
      resto :
          (t : Tcb) (pid : ℕ) (h : Option ℕ) (block : List ℕ)
          → Asegura (Mismos k) (elim h [
            | none ↦ eliminar_de_ready c e (record k { hilos_en_block = block }) t pid
            | some b ↦ ok (record k { hilos_en_block = block })
          ])
      resto t pid none block = eliminar_de_ready-Mismos (record k { hilos_en_block = block }) t pid
      resto t pid (some b) block = Asegura-ok _ refl

  asignar_al_primero-Mismos :
      (k : Kernel) (m : ℕ) (nombre : List ℕ)
      → Asegura (λ (r : Kernel × ℕ). Mismos k r.0) (asignar_al_primero c e k m nombre)
  unfolding asignar_al_primero
  asignar_al_primero-Mismos k m nombre = Asegura-luego (deref (k.recursos m)) λ r h.
      Asegura-bind (con_recurso k m _) (con_recurso-Mismos k m _) λ k1 h1.
        Asegura-luego (deref (c.list_remove r.hilos_bloqueados 0).0) λ nuevo h.
          Asegura-luego (deref (k1.hilos nuevo)) λ t h.
            Asegura-luego (remover_mutex c k1 t.mutex_en_espera nombre) λ (s, espera) h.
              Asegura-bind (con_hilo k1 nuevo _) (con_hilo-Mismos k1 nuevo _)
                λ k2 h2. Asegura-ok _ (h2 ∙ h1)

  liberar_recurso-Mismos :
      (k : Kernel) (a tid pid m : ℕ) → Asegura (Mismos k) (liberar_recurso c e k a tid pid m)
  unfolding liberar_recurso
  liberar_recurso-Mismos k a tid pid m = Asegura-luego (deref (k.recursos m)) λ r h.
      Asegura-luego (remover_hilo c k r.hilos_bloqueados tid pid) λ (s, resto) h.
        Asegura-bind (con_recurso k m _) (con_recurso-Mismos k m _) λ k1 h1.
          Asegura-if (apunta_a r.tomado_por a)
            (λ suyo.
              Asegura-if (ltb 0 (c.list_size resto))
                (λ hay.
                  Asegura-bind (asignar_al_primero c e k1 m r.nombre_recurso)
                    (asignar_al_primero-Mismos k1 m r.nombre_recurso)
                    λ (k2, nuevo) h2.
                      Asegura-weaken (desbloquear-Mismos k2 tid pid) λ k3 h3. h3 ∙ h2 ∙ h1)
                (λ nadie. Asegura-weaken (con_recurso-Mismos k1 m _) λ k2 h2. h2 ∙ h1))
            (λ ajeno. Asegura-ok _ h1)

  liberar_recursos-Mismos :
      (ms : List ℕ) (k : Kernel) (a tid pid : ℕ)
      → Asegura (Mismos k) (liberar_recursos c e k a tid pid ms)
  unfolding liberar_recursos
  liberar_recursos-Mismos [] k a tid pid = Asegura-ok _ refl
  liberar_recursos-Mismos (m ∷ ms) k a tid pid =
      Asegura-bind (liberar_recurso c e k a tid pid m) (liberar_recurso-Mismos k a tid pid m)
        λ k1 h1. Asegura-weaken (liberar_recursos-Mismos ms k1 a tid pid) λ k2 h2. h2 ∙ h1

  liberar_recursos_mutex-Mismos :
      (k : Kernel) (a : ℕ) → Asegura (Mismos k) (liberar_recursos_mutex c e k a)
  unfolding liberar_recursos_mutex
  liberar_recursos_mutex-Mismos k a = Asegura-luego (deref (k.hilos a)) λ t h.
      Asegura-luego (deref (k.procesos t.proceso_padre))
        λ padre h. liberar_recursos-Mismos padre.lista_de_mutex_del_proceso k a t.tid padre.pid

  despertar_por_join-Mismos :
      (k : Kernel) (o : Option ℕ) → Asegura (Mismos k) (despertar_por_join c e k o)
  unfolding despertar_por_join
  despertar_por_join-Mismos k none = Asegura-ok _ refl
  despertar_por_join-Mismos k (some j) = Asegura-luego (deref (k.hilos j)) λ u h.
      Asegura-luego (pid_del_hilo k u) λ pid h.
        Asegura-luego (remover_hilo c k k.hilos_en_block u.tid pid) λ (hallado, block) h.
          Asegura-luego (deref hallado) λ b h.
            Asegura-bind (con_hilo (record k { hilos_en_block = block }) b _)
              (con_hilo-Mismos (record k { hilos_en_block = block }) b _)
              λ k1 h1. Asegura-weaken (pasar_a_ready-Mismos k1 b) λ k2 h2. h2 ∙ h1

  notificar_finalizacion_hilo-Mismos :
      (k : Kernel) (a : ℕ) → Asegura (Mismos k) (notificar_finalizacion_hilo e k a)
  unfolding notificar_finalizacion_hilo
  notificar_finalizacion_hilo-Mismos k a = Asegura-luego (deref (k.hilos a)) λ t h.
      Asegura-luego (pid_del_hilo k t) λ pid h.
        Asegura-luego
          (recibir_operacion
            (e.memoria k.pedidos (numeros OpCode.finalizacion_de_hilo (pid ∷ t.tid ∷ []))))
          λ (v, s) h. Asegura-luego (recibir_una_cadena s) λ (w, s') h. Asegura-ok _ refl

  finalizar_hilo-Mismos : (k : Kernel) (a : ℕ) → Asegura (Mismos k) (finalizar_hilo c e k a)
  unfolding finalizar_hilo
  finalizar_hilo-Mismos k a = Asegura-bind (con_hilo k a _) (con_hilo-Mismos k a _) λ k1 h1.
      let k1' : Kernel = record k1 { hilos_en_exit = c.list_add k1.hilos_en_exit a } in
      Asegura-bind (notificar_finalizacion_hilo e k1' a) (notificar_finalizacion_hilo-Mismos k1' a)
        λ k2 h2. Asegura-luego (deref (k2.hilos a)) λ t h.
          Asegura-bind (despertar_por_join c e k2 t.hilo_bloqueado_por_join)
            (despertar_por_join-Mismos k2 t.hilo_bloqueado_por_join)
            λ k3 h3.
              Asegura-bind (liberar_recursos_mutex c e k3 a) (liberar_recursos_mutex-Mismos k3 a)
                λ k4 h4. Asegura-ok _ (h4 ∙ h3 ∙ h2 ∙ h1)

  finalizar_si_no_termino-Mismos :
      (k : Kernel) (a : ℕ) → Asegura (Mismos k) (finalizar_si_no_termino c e k a)
  unfolding finalizar_si_no_termino
  finalizar_si_no_termino-Mismos k a = Asegura-luego (deref (k.hilos a)) λ t h.
      Asegura-if (es_exit t.estado_del_hilo) (λ si. Asegura-ok _ refl)
        (λ vivo.
          Asegura-bind (finalizar_hilo c e k a) (finalizar_hilo-Mismos k a)
            λ k1 h1. Asegura-weaken (eliminar_de_colas-Mismos k1 a) λ k2 h2. h2 ∙ h1)

  -- The loop that ends the threads of a process goes round at most once for every two threads from the
  -- counter on, the last one included when they are odd: with that much fuel and one more, whatever stands for
  -- a run without fuel is never reached, and more fuel changes nothing.
  pub finalizar_hilos-fuel :
      (agotado agotado' : Resultado Kernel) (fuel otro i : ℕ) (k : Kernel) (p : ℕ) (q : Pcb)
      → k.procesos p ≡ some q
      → length q.lista_de_hilos_del_proceso - i + 2 ≤ 2 * fuel
      → length q.lista_de_hilos_del_proceso - i + 2 ≤ 2 * otro
      → finalizar_hilos c e agotado fuel i k p ≡ finalizar_hilos c e agotado' otro i k p
  unfolding finalizar_hilos
  finalizar_hilos-fuel agotado agotado' zero otro i k p q hq basta basta' = absurd (omega arith)
  finalizar_hilos-fuel agotado agotado' (suc fuel) zero i k p q hq basta basta' =
      absurd (omega arith)
  finalizar_hilos-fuel agotado agotado' (suc fuel) (suc otro) i k p q hq basta basta' =
      rw hq (elim (Bool-cases (ltb i (c.list_size q.lista_de_hilos_del_proceso))) [
        | inl si ↦ rw si (
            let resto : List ℕ = (c.list_remove q.lista_de_hilos_del_proceso i).1 in
            let k1 : Kernel = record k {
              procesos =
                  actualizar k.procesos p (some (record q { lista_de_hilos_del_proceso = resto }));
            } in
            let dentro : i < length q.lista_de_hilos_del_proceso =
              ground (arith, c.list_size_lem q.lista_de_hilos_del_proceso) in
            let largo : length resto + 1 ≡ length q.lista_de_hilos_del_proceso =
              rw (c.list_remove_lem q.lista_de_hilos_del_proceso i)
                (length-erase_idx q.lista_de_hilos_del_proceso i dentro) in
            >>=-igual {P = λ (a : ℕ). a ≡ a}
              (deref (c.list_remove q.lista_de_hilos_del_proceso i).0) _ _
              (record { cumple = λ a h. refl })
              λ a nada.
                >>=-igual (finalizar_si_no_termino c e k1 a) _ _
                  (finalizar_si_no_termino-Mismos k1 a)
                  λ k2 mismos.
                    finalizar_hilos-fuel agotado agotado' fuel otro (i + 1) k2 p
                      (record q { lista_de_hilos_del_proceso = resto })
                      (ap (λ (f : ℕ → Option Pcb). f p) mismos ∙ rw (==_self p)) (omega arith)
                      (omega arith))
        | inr fin ↦ rw fin
      ])
