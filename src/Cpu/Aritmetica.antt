-- ===== src/Cpu/Aritmetica.antt =====
-- The registers by name: what SET, SUM, SUB and JNZ of cpu/src/mainCPU.c do, for the eight names
-- that the processor knows.
use tp_sistemas_operativos.Base.{
  if◌then◌else◌, ◌==◌, ℕ, ◌<◌, ◌≡◌, ◌≢◌, refl, List, codes, arith, add32, sub32, u32_mod, strcmp_eq,
}
use tp_sistemas_operativos.Base.Resultado.{ok}
use tp_sistemas_operativos.Cpu.Registros.{
  Cpu, buscar_valor_registro, ejecutar_set, sumar, restar, ejecutar_sum, ejecutar_sub, ejecutar_jnz,
}

pub data Registro : Type 0 where
  reg_ax reg_bx reg_cx reg_dx reg_ex reg_fx reg_gx reg_hx : Registro

unfoldable pub nombre : Registro → List ℕ
nombre reg_ax = codes "AX"
nombre reg_bx = codes "BX"
nombre reg_cx = codes "CX"
nombre reg_dx = codes "DX"
nombre reg_ex = codes "EX"
nombre reg_fx = codes "FX"
nombre reg_gx = codes "GX"
nombre reg_hx = codes "HX"

unfoldable pub leer : Registro → Cpu → ℕ
leer reg_ax k = k.ax
leer reg_bx k = k.bx
leer reg_cx k = k.cx
leer reg_dx k = k.dx
leer reg_ex k = k.ex
leer reg_fx k = k.fx
leer reg_gx k = k.gx
leer reg_hx k = k.hx

unfoldable pub escribir : Registro → ℕ → Cpu → Cpu
escribir reg_ax v k = record k { ax = v }
escribir reg_bx v k = record k { bx = v }
escribir reg_cx v k = record k { cx = v }
escribir reg_dx v k = record k { dx = v }
escribir reg_ex v k = record k { ex = v }
escribir reg_fx v k = record k { fx = v }
escribir reg_gx v k = record k { gx = v }
escribir reg_hx v k = record k { hx = v }

buscar-leer : (k : Cpu) (r : Registro) → buscar_valor_registro k (nombre r) ≡ ok (leer r k)
unfolding buscar_valor_registro nombre leer strcmp_eq
buscar-leer k reg_ax = refl
buscar-leer k reg_bx = refl
buscar-leer k reg_cx = refl
buscar-leer k reg_dx = refl
buscar-leer k reg_ex = refl
buscar-leer k reg_fx = refl
buscar-leer k reg_gx = refl
buscar-leer k reg_hx = refl

set-escribir : (k : Cpu) (r : Registro) (v : ℕ) → ejecutar_set k (nombre r) v ≡ escribir r v k
unfolding ejecutar_set nombre escribir strcmp_eq
set-escribir k reg_ax v = refl
set-escribir k reg_bx v = refl
set-escribir k reg_cx v = refl
set-escribir k reg_dx v = refl
set-escribir k reg_ex v = refl
set-escribir k reg_fx v = refl
set-escribir k reg_gx v = refl
set-escribir k reg_hx v = refl

leer-escribir : (k : Cpu) (r : Registro) (v : ℕ) → leer r (escribir r v k) ≡ v
unfolding leer escribir
leer-escribir k reg_ax v = refl
leer-escribir k reg_bx v = refl
leer-escribir k reg_cx v = refl
leer-escribir k reg_dx v = refl
leer-escribir k reg_ex v = refl
leer-escribir k reg_fx v = refl
leer-escribir k reg_gx v = refl
leer-escribir k reg_hx v = refl

leer-escribir_ne : (k : Cpu) (r s : Registro) (v : ℕ) → s ≢ r → leer s (escribir r v k) ≡ leer s k
unfolding leer escribir
leer-escribir_ne k r s v h = ground arith

escribir-escribir :
    (k : Cpu) (r : Registro) (v w : ℕ) → escribir r w (escribir r v k) ≡ escribir r w k
unfolding escribir
escribir-escribir k reg_ax v w = refl
escribir-escribir k reg_bx v w = refl
escribir-escribir k reg_cx v w = refl
escribir-escribir k reg_dx v w = refl
escribir-escribir k reg_ex v w = refl
escribir-escribir k reg_fx v w = refl
escribir-escribir k reg_gx v w = refl
escribir-escribir k reg_hx v w = refl

escribir-leer : (k : Cpu) (r : Registro) → escribir r (leer r k) k ≡ k
unfolding leer escribir
escribir-leer k reg_ax = refl
escribir-leer k reg_bx = refl
escribir-leer k reg_cx = refl
escribir-leer k reg_dx = refl
escribir-leer k reg_ex = refl
escribir-leer k reg_fx = refl
escribir-leer k reg_gx = refl
escribir-leer k reg_hx = refl

sumar-escribir :
    (k : Cpu) (r : Registro) (v : ℕ) → sumar k (nombre r) v ≡ escribir r (add32 (leer r k) v) k
unfolding sumar nombre leer escribir strcmp_eq
sumar-escribir k reg_ax v = refl
sumar-escribir k reg_bx v = refl
sumar-escribir k reg_cx v = refl
sumar-escribir k reg_dx v = refl
sumar-escribir k reg_ex v = refl
sumar-escribir k reg_fx v = refl
sumar-escribir k reg_gx v = refl
sumar-escribir k reg_hx v = refl

restar-escribir :
    (k : Cpu) (r : Registro) (v : ℕ) → restar k (nombre r) v ≡ escribir r (sub32 (leer r k) v) k
unfolding restar nombre leer escribir strcmp_eq
restar-escribir k reg_ax v = refl
restar-escribir k reg_bx v = refl
restar-escribir k reg_cx v = refl
restar-escribir k reg_dx v = refl
restar-escribir k reg_ex v = refl
restar-escribir k reg_fx v = refl
restar-escribir k reg_gx v = refl
restar-escribir k reg_hx v = refl

-- After SET, the register reads as the value that was set, and every other register reads as before.
pub ejecutar_set-buscar_valor_registro :
    (k : Cpu) (r : Registro) (v : ℕ)
    → (buscar_valor_registro (ejecutar_set k (nombre r) v) (nombre r) ≡ ok v)
      × ((s : Registro)
          → s ≢ r
          → buscar_valor_registro (ejecutar_set k (nombre r) v) (nombre s)
            ≡ buscar_valor_registro k (nombre s))
ejecutar_set-buscar_valor_registro k r v = (
  rw (set-escribir k r v, buscar-leer (escribir r v k) r, leer-escribir k r v),
  λ s distinto. rw (
    set-escribir k r v,
    buscar-leer (escribir r v k) s,
    buscar-leer k s,
    leer-escribir_ne k r s v distinto,
  ),
)

-- For two registers that hold 32-bit values: SUM of another register leaves the sum modulo 2 ^ 32 in
-- the destination, and SUB of the same register then brings the processor back to the state it had
-- before SUM.
pub ejecutar_sum-ejecutar_sub :
    (k : Cpu) (r s : Registro)
    → s ≢ r
    → leer r k < u32_mod
    → leer s k < u32_mod
    → (k' : Cpu) × (ejecutar_sum k (nombre r) (nombre s) ≡ ok k')
      × (buscar_valor_registro k' (nombre r) ≡ ok (add32 (leer r k) (leer s k)))
      × (ejecutar_sub k' (nombre r) (nombre s) ≡ ok k)
unfolding ejecutar_sum ejecutar_sub
ejecutar_sum-ejecutar_sub k r s distinto hr hs = (
  k',
  rw (buscar-leer k s, sumar-escribir k r (leer s k)),
  rw (buscar-leer k' r, leer-escribir k r suma),
  rw (
    buscar-leer k' s,
    leer-escribir_ne k r s suma distinto,
    restar-escribir k' r (leer s k),
    leer-escribir k r suma,
    escribir-escribir k r suma (sub32 suma (leer s k)),
    vuelta,
    escribir-leer k r,
  ),
)
  where
    suma : ℕ
    suma = add32 (leer r k) (leer s k)

    k' : Cpu
    k' = escribir r suma k

    vuelta : sub32 suma (leer s k) ≡ leer r k
    vuelta = omega (arith, hr, hs)

-- JNZ on a register moves the program counter to the given instruction when the register is not 0
-- and to the next one when it is, and changes nothing else.
pub ejecutar_jnz-pc :
    (k : Cpu) (r : Registro) (n : ℕ)
    → ejecutar_jnz k (nombre r) n ≡ record k { pc = if leer r k == 0 then add32 k.pc 1 else n }
unfolding ejecutar_jnz nombre leer strcmp_eq
ejecutar_jnz-pc k reg_ax n = ground arith
ejecutar_jnz-pc k reg_bx n = ground arith
ejecutar_jnz-pc k reg_cx n = ground arith
ejecutar_jnz-pc k reg_dx n = ground arith
ejecutar_jnz-pc k reg_ex n = ground arith
ejecutar_jnz-pc k reg_fx n = ground arith
ejecutar_jnz-pc k reg_gx n = ground arith
ejecutar_jnz-pc k reg_hx n = ground arith
