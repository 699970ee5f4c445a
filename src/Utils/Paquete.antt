-- ===== src/Utils/Paquete.antt =====
-- utils/src/utils/serializacion.c, the sender: a packet is a code and a buffer that grows by each
-- value added, and goes out as the code, the size and the bytes.
use tp_sistemas_operativos.Base.{ℕ, ◌+◌, List, [], ◌∷◌, ◌++◌, length, take, add32}
use tp_sistemas_operativos.Utils.Bytes.{bytes_de}
use tp_sistemas_operativos.Utils.OpCode.{OpCode, valor, mensaje}

-- `t_buffer`; its field `offset` is never used.
pub record Buffer : Type 0 where
  pub size : ℕ
  pub stream : List ℕ

-- `t_paquete`
pub record Paquete : Type 0 where
  pub codigo_operacion : OpCode
  pub buffer : Buffer

unfoldable pub crear_buffer : Buffer
crear_buffer = record { size = 0; stream = [] }

unfoldable pub crear_paquete : OpCode → Paquete
unfolding crear_buffer
crear_paquete codigo = record { codigo_operacion = codigo; buffer = crear_buffer }

-- `tamanio` is the length of the value in every call.
unfoldable pub agregar_a_paquete : Paquete → List ℕ → ℕ → Paquete
agregar_a_paquete paquete valor tamanio = record paquete {
  buffer = record {
    size = add32 paquete.buffer.size tamanio;
    stream = paquete.buffer.stream ++ take tamanio valor;
  };
}

-- The bytes of a C string, its NUL included.
abbrev pub con_nul : List ℕ → List ℕ
con_nul cadena = cadena ++ (0 ∷ [])

unfoldable pub agregar_cadena : Paquete → List ℕ → Paquete
unfolding agregar_a_paquete
agregar_cadena paquete cadena =
    let tamanio_de_la_cadena = length cadena + 1 in
    agregar_a_paquete (agregar_a_paquete paquete (bytes_de tamanio_de_la_cadena) 4) (con_nul cadena)
      tamanio_de_la_cadena

-- `agregar_a_paquete(paquete, &n, sizeof(uint32_t))`
unfoldable pub agregar_entero : Paquete → ℕ → Paquete
unfolding agregar_a_paquete
agregar_entero paquete n = agregar_a_paquete paquete (bytes_de n) 4

unfoldable pub serializar_paquete : Paquete → List ℕ
serializar_paquete paquete =
    bytes_de (valor paquete.codigo_operacion)
    ++ (bytes_de paquete.buffer.size ++ take paquete.buffer.size paquete.buffer.stream)

-- What `enviar_paquete` hands to `send`.
unfoldable pub enviar_paquete : Paquete → List ℕ
unfolding serializar_paquete
enviar_paquete paquete = serializar_paquete paquete

unfoldable pub enviar_mensaje : List ℕ → List ℕ
unfolding serializar_paquete
enviar_mensaje cadena = serializar_paquete (record {
  codigo_operacion = mensaje;
  buffer = record { size = length cadena + 1; stream = con_nul cadena };
})

unfoldable pub enviar_respuesta : List ℕ → OpCode → List ℕ
unfolding agregar_cadena crear_paquete enviar_paquete
enviar_respuesta cadena codigo = enviar_paquete (agregar_cadena (crear_paquete codigo) cadena)
