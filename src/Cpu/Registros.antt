-- ===== src/Cpu/Registros.antt =====
-- cpu/src/mainCPU.c, the globals and the instructions on registers. `Cpu` is the record of the
-- globals; what goes out on a socket is appended to `a_memoria` and `a_kernel`, and `de_memoria`
-- is what the memory still has to say. An `int` that holds -1 is read as its bit pattern.
use tp_sistemas_operativos.Base.{ℕ, Bool, List, codes, strcmp_eq, ◌==◌, add32, sub32, if◌then◌else◌}
use tp_sistemas_operativos.Base.Resultado.{Resultado, ok, falla, ◌>>=◌}

pub record Cpu : Type 0 where
  pub ax : ℕ
  pub bx : ℕ
  pub cx : ℕ
  pub dx : ℕ
  pub ex : ℕ
  pub fx : ℕ
  pub gx : ℕ
  pub hx : ℕ
  pub pc : ℕ
  pub base : ℕ
  pub limite : ℕ
  pub pid : ℕ
  pub tid : ℕ
  pub pid_interrupt : ℕ
  pub tid_interrupt : ℕ
  pub seguir_ejecutando : Bool
  pub a_memoria : List ℕ
  pub de_memoria : List ℕ
  pub a_kernel : List ℕ

-- A name that is no register leaves `valorLeido` without a value.
unfoldable pub buscar_valor_registro : Cpu → List ℕ → Resultado ℕ
buscar_valor_registro k registro =
    if strcmp_eq registro (codes "AX")
    then ok k.ax
    else if strcmp_eq registro (codes "BX")
    then ok k.bx
    else if strcmp_eq registro (codes "CX")
    then ok k.cx
    else if strcmp_eq registro (codes "DX")
    then ok k.dx
    else if strcmp_eq registro (codes "EX")
    then ok k.ex
    else if strcmp_eq registro (codes "FX")
    then ok k.fx
    else if strcmp_eq registro (codes "GX")
    then ok k.gx
    else if strcmp_eq registro (codes "HX")
    then ok k.hx
    else falla

-- `pc++`
abbrev pub avanzar : Cpu → Cpu
avanzar k = record k { pc = add32 k.pc 1 }

unfoldable pub ejecutar_set : Cpu → List ℕ → ℕ → Cpu
ejecutar_set k registro valor_recibido =
    if strcmp_eq registro (codes "AX")
    then record k { ax = valor_recibido }
    else if strcmp_eq registro (codes "BX")
    then record k { bx = valor_recibido }
    else if strcmp_eq registro (codes "CX")
    then record k { cx = valor_recibido }
    else if strcmp_eq registro (codes "DX")
    then record k { dx = valor_recibido }
    else if strcmp_eq registro (codes "EX")
    then record k { ex = valor_recibido }
    else if strcmp_eq registro (codes "FX")
    then record k { fx = valor_recibido }
    else if strcmp_eq registro (codes "GX")
    then record k { gx = valor_recibido }
    else if strcmp_eq registro (codes "HX")
    then record k { hx = valor_recibido }
    else k

-- The chain of `ejecutar_sum`, on the value of the origin.
unfoldable pub sumar : Cpu → List ℕ → ℕ → Cpu
sumar k registro valor_reg_origen =
    if strcmp_eq registro (codes "AX")
    then record k { ax = add32 k.ax valor_reg_origen }
    else if strcmp_eq registro (codes "BX")
    then record k { bx = add32 k.bx valor_reg_origen }
    else if strcmp_eq registro (codes "CX")
    then record k { cx = add32 k.cx valor_reg_origen }
    else if strcmp_eq registro (codes "DX")
    then record k { dx = add32 k.dx valor_reg_origen }
    else if strcmp_eq registro (codes "EX")
    then record k { ex = add32 k.ex valor_reg_origen }
    else if strcmp_eq registro (codes "FX")
    then record k { fx = add32 k.fx valor_reg_origen }
    else if strcmp_eq registro (codes "GX")
    then record k { gx = add32 k.gx valor_reg_origen }
    else if strcmp_eq registro (codes "HX")
    then record k { hx = add32 k.hx valor_reg_origen }
    else k

unfoldable pub ejecutar_sum : Cpu → List ℕ → List ℕ → Resultado Cpu
unfolding buscar_valor_registro sumar
ejecutar_sum k reg_dest reg_origen = do
  valor_reg_origen ← buscar_valor_registro k reg_origen
  ok (sumar k reg_dest valor_reg_origen)

-- The chain of `ejecutar_sub`, on the value of the origin.
unfoldable pub restar : Cpu → List ℕ → ℕ → Cpu
restar k registro valor_reg_origen =
    if strcmp_eq registro (codes "AX")
    then record k { ax = sub32 k.ax valor_reg_origen }
    else if strcmp_eq registro (codes "BX")
    then record k { bx = sub32 k.bx valor_reg_origen }
    else if strcmp_eq registro (codes "CX")
    then record k { cx = sub32 k.cx valor_reg_origen }
    else if strcmp_eq registro (codes "DX")
    then record k { dx = sub32 k.dx valor_reg_origen }
    else if strcmp_eq registro (codes "EX")
    then record k { ex = sub32 k.ex valor_reg_origen }
    else if strcmp_eq registro (codes "FX")
    then record k { fx = sub32 k.fx valor_reg_origen }
    else if strcmp_eq registro (codes "GX")
    then record k { gx = sub32 k.gx valor_reg_origen }
    else if strcmp_eq registro (codes "HX")
    then record k { hx = sub32 k.hx valor_reg_origen }
    else k

unfoldable pub ejecutar_sub : Cpu → List ℕ → List ℕ → Resultado Cpu
unfolding buscar_valor_registro restar
ejecutar_sub k reg_dest reg_origen = do
  valor_reg_origen ← buscar_valor_registro k reg_origen
  ok (restar k reg_dest valor_reg_origen)

-- The inner test of `ejecutar_jnz`.
abbrev pub saltar_si : ℕ → Cpu → ℕ → Cpu
saltar_si valor k nro_instruccion =
    if valor == 0 then avanzar k else record k { pc = nro_instruccion }

unfoldable pub ejecutar_jnz : Cpu → List ℕ → ℕ → Cpu
ejecutar_jnz k registro nro_instruccion =
    if strcmp_eq registro (codes "AX")
    then saltar_si k.ax k nro_instruccion
    else if strcmp_eq registro (codes "BX")
    then saltar_si k.bx k nro_instruccion
    else if strcmp_eq registro (codes "CX")
    then saltar_si k.cx k nro_instruccion
    else if strcmp_eq registro (codes "DX")
    then saltar_si k.dx k nro_instruccion
    else if strcmp_eq registro (codes "EX")
    then saltar_si k.ex k nro_instruccion
    else if strcmp_eq registro (codes "FX")
    then saltar_si k.fx k nro_instruccion
    else if strcmp_eq registro (codes "GX")
    then saltar_si k.gx k nro_instruccion
    else if strcmp_eq registro (codes "HX")
    then saltar_si k.hx k nro_instruccion
    else k
