-- ===== src/Utils.antt =====
-- utils/src/utils: the message codes, and packets over a byte stream.
pub mod OpCode
pub mod Bytes
pub mod Paquete
pub mod Recepcion
pub mod Viaje
pub mod Mensajes
pub mod Cadenas
