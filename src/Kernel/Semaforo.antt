-- ===== src/Kernel/Semaforo.antt =====
-- The semaphores of kernel/src/mainkernel.c against the queues that they count.
pub mod Colas
pub mod Bajas
pub mod Llamadas
pub mod Eleccion
pub mod Rondas
