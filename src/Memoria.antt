-- ===== src/Memoria.antt =====
-- memoria/src/mainMemoria.h and mainMemoria.c: the module that holds the memory, its free holes, and
-- the processes with the contexts and the instructions of their threads.
pub mod Huecos
pub mod Ajuste
pub mod Ocupacion
pub mod Hilos
pub mod Procesos
pub mod Kernel
pub mod Particion
pub mod Espacio
pub mod Contexto
pub mod Bajas
pub mod Inicio
pub mod Historia
pub mod Cpu
