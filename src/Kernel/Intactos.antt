-- ===== src/Kernel/Intactos.antt =====
-- What the calls of kernel/src/pcbYtcb.c and kernel/src/mainkernel.c that wake a thread up leave alone: the
-- processes and the mutexes.
use tp_sistemas_operativos.Base.{ℕ, ◌≡◌, refl, ◌∙◌, Bool, arith, Option, none, some, List}
use tp_sistemas_operativos.Base.Resultado.{ok, deref}
use tp_sistemas_operativos.Commons.{Listas}
use tp_sistemas_operativos.Kernel.Asegura.{
  Asegura, Asegura-bind, Asegura-luego, Asegura-ok, Asegura-if,
}
use tp_sistemas_operativos.Kernel.Bajas.{desbloquear}
use tp_sistemas_operativos.Kernel.Colas.{
  usamos_multicolas, encolar, puede_correr, obtener_cola_multinivel, transicion_a_ready,
  pasar_a_ready, listo,
}
use tp_sistemas_operativos.Kernel.Estado.{Kernel, Tcb, Pcb, Mutex, Entorno, con_hilo, remover_hilo}

abbrev pub lugares : Kernel → (ℕ → Option Pcb) × (ℕ → Option Mutex)
lugares k = (k.procesos, k.recursos)

abbrev pub Intactos : Kernel → Kernel → Type 0
Intactos k k' = lugares k' ≡ lugares k

pub con_hilo-Intactos : (k : Kernel) (a : ℕ) (f : Tcb → Tcb) → Asegura (Intactos k) (con_hilo k a f)
unfolding con_hilo
con_hilo-Intactos k a f = Asegura-luego (deref (k.hilos a)) λ t h. Asegura-ok _ refl

module _ (c : Listas) (e : Entorno) where
  encolar-Intactos :
      (k : Kernel) (a prioridad : ℕ) → Asegura (Intactos k) (encolar c e k a prioridad)
  unfolding encolar
  encolar-Intactos k a prioridad =
      Asegura-if (usamos_multicolas e)
        (λ si.
          Asegura-luego (obtener_cola_multinivel c e k.colas_de_ready prioridad)
            λ q h. Asegura-ok _ refl)
        (λ otro. Asegura-ok _ refl)

  transicion_a_ready-Intactos :
      (k : Kernel) (a : ℕ)
      → Asegura (λ (r : Kernel × Bool). Intactos k r.0) (transicion_a_ready c e k a)
  unfolding transicion_a_ready
  transicion_a_ready-Intactos k a = Asegura-luego (deref (k.hilos a)) λ t h.
      Asegura-if (puede_correr c e t)
        (λ si.
          Asegura-bind (encolar c e k a t.prioridad) (encolar-Intactos k a t.prioridad) λ k1 h1.
            Asegura-bind (con_hilo k1 a listo) (con_hilo-Intactos k1 a listo)
              λ k2 h2. Asegura-ok _ (h2 ∙ h1))
        (λ falta. Asegura-ok _ refl)

  pub pasar_a_ready-Intactos : (k : Kernel) (a : ℕ) → Asegura (Intactos k) (pasar_a_ready c e k a)
  unfolding pasar_a_ready
  pasar_a_ready-Intactos k a =
      Asegura-bind (transicion_a_ready c e k a) (transicion_a_ready-Intactos k a)
        λ (k1, paso) h. Asegura-ok _ (ground arith)

  pub desbloquear-Intactos :
      (k : Kernel) (tid pid : ℕ) → Asegura (Intactos k) (desbloquear c e k tid pid)
  unfolding desbloquear
  desbloquear-Intactos k tid pid =
      Asegura-luego (remover_hilo c k k.hilos_en_block tid pid) λ (h, block) sacado. resto h block
    where
      resto :
          (h : Option ℕ) (block : List ℕ)
          → Asegura (Intactos k) (elim h [
            | none ↦ ok (record k { hilos_en_block = block })
            | some b ↦ pasar_a_ready c e (record k { hilos_en_block = block }) b
          ])
      resto none block = Asegura-ok _ refl
      resto (some b) block = pasar_a_ready-Intactos (record k { hilos_en_block = block }) b
