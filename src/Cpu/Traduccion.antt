-- ===== src/Cpu/Traduccion.antt =====
-- The MMU: what `traducir_direccion_logica` of cpu/src/mainCPU.c accepts, against the partition of
-- the process, and what follows a segmentation fault.
use tp_sistemas_operativos.Base.{
  ℕ, ◌+◌, ◌-◌, ◌≤◌, ◌<◌, ◌≡◌, ◌∙◌, sym, ap, true, false, Bool-cases, inl, inr, ltb, List, [], ◌∷◌,
  ◌++◌, ==_self, arith, lt→ltb, leb, length, u32_mod,
}
use tp_sistemas_operativos.Base.Resultado.{ok, falla, ◌>>=◌, >>=-eq-ok}
use tp_sistemas_operativos.Commons.{Listas}
use tp_sistemas_operativos.Cpu.Registros.{Cpu, avanzar, ejecutar_set, buscar_valor_registro}
use tp_sistemas_operativos.Cpu.Mmu.{
  numeros, esperar, decir_al_kernel, actualizar_contexto_y_enviar, traducir_direccion_logica,
  leer_en, ejecutar_read_mem,
}
use tp_sistemas_operativos.Cpu.Protocolo.{recibir_operacion-numeros, atender_cpu-numeros}
use tp_sistemas_operativos.Memoria.Cpu.{read_mem, atender_codigo, atender_cpu}
use tp_sistemas_operativos.Memoria.Procesos.{Memoria, leer_memoria}
use tp_sistemas_operativos.Utils.Mensajes.{un_entero-cuerpo, tres_enteros-cuerpo}
use tp_sistemas_operativos.Utils.OpCode.{OpCode, valor}
use tp_sistemas_operativos.Utils.Paquete.{enviar_respuesta}
use tp_sistemas_operativos.Cpu.Guardado.{
  pedido_de_guardar, guardada, actualizar_contexto_y_enviar-guardada,
}

-- The word at a physical address lies in the partition from `base` to `limite`, which is its last
-- byte.
abbrev pub EnParticion : Cpu → ℕ → Type 0
EnParticion k d = (k.base ≤ d) × (d + 3 ≤ k.limite)

traducir-acepta :
    (k : Cpu) (n : ℕ)
    → n + 4 ≤ k.limite
    → k.base + k.limite < u32_mod
    → traducir_direccion_logica k n ≡ ok (k, k.base + n)
unfolding traducir_direccion_logica
traducir-acepta k n h cabe = ground arith

-- What the processor is after a segmentation fault, from what it is after the context was saved.
abbrev pub tras_la_falla : Cpu → Cpu → Cpu
tras_la_falla k k' = record (decir_al_kernel k' (numeros OpCode.segmentation_fault (k.tid ∷ []))) {
  seguir_ejecutando = false;
}

traducir-pasado :
    (k : Cpu) (n : ℕ)
    → ltb k.limite (n + 4) ≡ true
    → traducir_direccion_logica k n
      ≡ (actualizar_contexto_y_enviar k >>= (λ k1. ok (tras_la_falla k k1, 4294967295)))
unfolding traducir_direccion_logica
traducir-pasado k n h = rw h

-- A translation after which the cycle goes on found the word below the limit.
traducir-seguir :
    (k k' : Cpu) (n d : ℕ)
    → traducir_direccion_logica k n ≡ ok (k', d)
    → k'.seguir_ejecutando ≡ true
    → n + 4 ≤ k.limite
traducir-seguir k k' n d h sigue = elim (Bool-cases (ltb k.limite (n + 4))) [
  | inl pasa ↦
      let (k1, guarda, es) =
        >>=-eq-ok (actualizar_contexto_y_enviar k) (λ k1. ok (tras_la_falla k k1, 4294967295))
          (sym (traducir-pasado k n pasa) ∙ h) in
      let par : (tras_la_falla k k1, 4294967295) ≡ (k', d) = cc in
      let para : false ≡ k'.seguir_ejecutando = ap (λ (s : Cpu × ℕ). s.0.seguir_ejecutando) par in
      absurd (cc)
  | inr cabe ↦ ground arith
]

-- In a partition that starts at 0 or 1, with base and limit together below 2 ^ 32, a translation that does
-- not stop the cycle of instructions changes nothing in the processor, and its word lies inside the
-- partition.
pub traducir_direccion_logica-dentro :
    (k k' : Cpu) (n d : ℕ)
    → k.base + k.limite < u32_mod
    → k.base ≤ 1
    → traducir_direccion_logica k n ≡ ok (k', d)
    → k'.seguir_ejecutando ≡ true
    → (k' ≡ k) × EnParticion k d
traducir_direccion_logica-dentro k k' n d cabe bajo h sigue =
    let dentro = traducir-seguir k k' n d h sigue in
    let acepta = traducir-acepta k n dentro cabe in
    let par : (k, k.base + n) ≡ (k', d) = cc in
    let fisica : k.base + n ≡ d = ap (λ (s : Cpu × ℕ). s.1) par in
    (sym (ap (λ (s : Cpu × ℕ). s.0) par), (omega arith, omega arith))

-- In a partition that starts above 1 and ends at 4 or more, with base and limit together below
-- 2 ^ 32, some logical address is translated without a fault to a word that ends outside the
-- partition.
pub traducir_direccion_logica-fuera :
    (k : Cpu)
    → k.base + k.limite < u32_mod
    → 1 < k.base
    → 4 ≤ k.limite
    → (n : ℕ) × (d : ℕ) × (traducir_direccion_logica k n ≡ ok (k, d)) × (k.limite < d + 3)
traducir_direccion_logica-fuera k cabe alto h = (
  k.limite - 4,
  k.base + (k.limite - 4),
  traducir-acepta k (k.limite - 4) (omega arith) cabe,
  omega arith,
)

traducir-rechaza :
    (k k' : Cpu) (n : ℕ)
    → k.limite < n + 4
    → actualizar_contexto_y_enviar k ≡ ok k'
    → traducir_direccion_logica k n ≡ ok (tras_la_falla k k', 4294967295)
unfolding traducir_direccion_logica
traducir-rechaza k k' n h e = rw (lt→ltb k.limite (n + 4) h, e)

-- READ_MEM on an address past the limit has the context saved and tells the kernel of the fault, but then
-- goes on: it sends its request with the physical address 2 ^ 32 - 1, and would put an answer in the register
-- and advance the counter; a memory of less than 2 ^ 32 bytes faults on that request. The register of the
-- address can be read, the ids and the answer to the read are below 2 ^ 32, and the socket holds the memory's
-- answer to the context, shorter than 2 ^ 31 - 5 bytes, and then an answer to the read.
pub ejecutar_read_mem-falla :
    (c : Listas) (m : Memoria) (k : Cpu) (datos direccion texto resto : List ℕ) (n v : ℕ)
    → buscar_valor_registro k direccion ≡ ok n
    → k.limite < n + 4
    → length texto + 5 < 2147483648
    → k.de_memoria
      ≡ enviar_respuesta texto OpCode.contexto_actualizado
        ++ (numeros OpCode.respuesta_lectura (v ∷ []) ++ resto)
    → v < u32_mod
    → k.pid < u32_mod
    → k.tid < u32_mod
    → length m.espacio < u32_mod
    → (ejecutar_read_mem k datos direccion
        ≡ ok (
            avanzar (
              ejecutar_set
                (record k {
                  a_memoria =
                      (k.a_memoria ++ pedido_de_guardar k)
                      ++ numeros OpCode.read_mem (k.pid ∷ k.tid ∷ 4294967295 ∷ []);
                  de_memoria = resto;
                  a_kernel = k.a_kernel ++ numeros OpCode.segmentation_fault (k.tid ∷ []);
                  seguir_ejecutando = false;
                })
                datos
                v)))
      × (atender_cpu c m (numeros OpCode.read_mem (k.pid ∷ k.tid ∷ 4294967295 ∷ [])) ≡ falla)
unfolding ejecutar_read_mem leer_en esperar atender_codigo read_mem leer_memoria
ejecutar_read_mem-falla c m k datos direccion texto resto n v e h corto contesta hv hp ht hm =
    let fuera : leb (4294967295 + 4) (length m.espacio) ≡ false = ground arith in
    let guarda =
      actualizar_contexto_y_enviar-guardada k texto
        (numeros OpCode.respuesta_lectura (v ∷ []) ++ resto) corto contesta in
    (
      rw (
        e,
        traducir-rechaza k (guardada k (numeros OpCode.respuesta_lectura (v ∷ []) ++ resto)) n h
            guarda,
        recibir_operacion-numeros OpCode.respuesta_lectura (v ∷ []) resto (omega arith),
        ==_self (valor OpCode.respuesta_lectura),
        un_entero-cuerpo v v v v hv hv hv hv resto,
      ),
      atender_cpu-numeros c m OpCode.read_mem (k.pid ∷ k.tid ∷ 4294967295 ∷ []) (omega arith)
          ∙ rw (
            tres_enteros-cuerpo k.pid k.tid 4294967295 0 hp ht (omega arith) (omega arith) [],
            fuera,
          ),
    )
