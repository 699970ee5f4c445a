-- ===== src/Filesystem.antt =====
-- filesystem: the reservation of blocks and the creation of files, filesystem/src/mainFS.c.
pub mod Bitmap
pub mod Reserva
pub mod Archivo
pub mod Grabado
pub mod Pedido
