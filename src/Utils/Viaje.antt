-- ===== src/Utils/Viaje.antt =====
-- Packets of utils/src/utils/serializacion.c from the sender to the receiver: lemmas on the code, the
-- size and the bytes.
use tp_sistemas_operativos.Base.{
  ℕ, ◌+◌, ◌<◌, ◌≡◌, refl, sym, ap, ◌∙◌, some, List, [], ◌∷◌, ◌++◌, arith, append_assoc, length,
  take, add32, u32_mod, lt→ltb, length-append,
}
use tp_sistemas_operativos.Base.Resultado.{ok}
use tp_sistemas_operativos.Utils.Bytes.{
  bytes_de, length-bytes_de, leer_entero-bytes_de, leer_bytes-append,
}
use tp_sistemas_operativos.Utils.OpCode.{OpCode, valor, valor_bound}
use tp_sistemas_operativos.Utils.Paquete.{
  Paquete, agregar_a_paquete, agregar_entero, agregar_cadena, con_nul, enviar_paquete,
}
use tp_sistemas_operativos.Utils.Recepcion.{recibir_operacion, recibir_buffer2}

-- The packet of a code and a stream whose size is that of the stream.
abbrev pub paquete_de : OpCode → List ℕ → Paquete
paquete_de codigo s = record {
  codigo_operacion = codigo;
  buffer = record { size = length s; stream = s };
}

-- The part of a packet behind its code.
abbrev pub cuerpo : List ℕ → List ℕ
cuerpo s = bytes_de (length s) ++ s

-- Every code fits in the four bytes that carry it.
pub valor-lt : (o : OpCode) → valor o < u32_mod
valor-lt o = omega (arith, valor_bound o)

take_all {ℓ} : {A : Type ℓ} (xs : List A) → take (length xs) xs ≡ xs
take_all [] = refl
take_all (x ∷ xs) = ap (◌∷◌ x) (take_all xs)

pub agregar_a_paquete-paquete_de :
    (o : OpCode) (s bs : List ℕ) (n : ℕ)
    → n ≡ length bs
    → length s + length bs < u32_mod
    → agregar_a_paquete (paquete_de o s) bs n ≡ paquete_de o (s ++ bs)
unfolding agregar_a_paquete
agregar_a_paquete-paquete_de o s bs n e h =
    let suma : add32 (length s) n ≡ length (s ++ bs) = omega (arith, e, length-append s bs) in
    rw (suma, e, take_all bs)

pub agregar_entero-paquete_de :
    (o : OpCode) (s : List ℕ) (n : ℕ)
    → length s + 4 < u32_mod
    → agregar_entero (paquete_de o s) n ≡ paquete_de o (s ++ bytes_de n)
unfolding agregar_entero
agregar_entero-paquete_de o s n h =
    agregar_a_paquete-paquete_de o s (bytes_de n) 4 (sym (length-bytes_de n))
      (rw (length-bytes_de n) h)

-- The bytes of a string in a packet: its size with the NUL, and its bytes.
abbrev pub cadena_de : List ℕ → List ℕ
cadena_de cadena = bytes_de (length cadena + 1) ++ con_nul cadena

pub length-con_nul : (cadena : List ℕ) → length (con_nul cadena) ≡ length cadena + 1
length-con_nul cadena = omega (arith, length-append cadena (0 ∷ []))

pub agregar_cadena-paquete_de :
    (o : OpCode) (s cadena : List ℕ)
    → length s + length cadena + 5 < u32_mod
    → agregar_cadena (paquete_de o s) cadena ≡ paquete_de o (s ++ cadena_de cadena)
unfolding agregar_cadena
agregar_cadena-paquete_de o s cadena h =
    let largo = length-bytes_de (length cadena + 1) in
    let cola = length-con_nul cadena in
    ap (λ (p : Paquete). agregar_a_paquete p (con_nul cadena) (length cadena + 1))
      (agregar_a_paquete-paquete_de o s (bytes_de (length cadena + 1)) 4 (sym largo)
        (rw largo (omega (arith, h))))
    ∙ agregar_a_paquete-paquete_de o (s ++ bytes_de (length cadena + 1)) (con_nul cadena)
        (length cadena + 1) (sym cola)
        (rw (length-append s (bytes_de (length cadena + 1)), largo, cola) (omega (arith, h)))
    ∙ ap (paquete_de o) (append_assoc s (bytes_de (length cadena + 1)) (con_nul cadena))

recibir_operacion-bytes_de :
    (n : ℕ) (resto : List ℕ)
    → n < u32_mod
    → recibir_operacion (bytes_de n ++ resto) ≡ ok (some n, resto)
unfolding recibir_operacion bytes_de
recibir_operacion-bytes_de n resto h = rw (leer_entero-bytes_de n resto h)

-- The receiver has the code, and then the bytes of the body.
pub recibir_operacion-enviar_paquete :
    (o : OpCode) (s resto : List ℕ)
    → recibir_operacion (enviar_paquete (paquete_de o s) ++ resto)
      ≡ ok (some (valor o), cuerpo s ++ resto)
unfolding enviar_paquete
recibir_operacion-enviar_paquete o s resto =
    rw (take_all s, append_assoc (bytes_de (valor o)) (cuerpo s) resto)
      (recibir_operacion-bytes_de (valor o) (cuerpo s ++ resto) (valor-lt o))

pub recibir_buffer2-cuerpo :
    (s resto : List ℕ) → length s < 2147483648 → recibir_buffer2 (cuerpo s ++ resto) ≡ ok (s, resto)
unfolding recibir_buffer2
recibir_buffer2-cuerpo s resto h =
    rw
      (
        append_assoc (bytes_de (length s)) s resto,
        leer_entero-bytes_de (length s) (s ++ resto) (omega arith),
        lt→ltb (length s) 2147483648 h,
      )
      (leer_bytes-append (length s) s resto refl)
