-- ===== src/Kernel.antt =====
-- kernel/src: the threads, the processes, the mutexes and the planners of the kernel.
pub mod Estado
pub mod Colas
pub mod Avisos
pub mod Altas
pub mod Bajas
pub mod Syscalls
pub mod Planificacion
pub mod Asegura
pub mod Pasos
pub mod Semaforo
pub mod Eleccion
pub mod Exclusion
pub mod Caida
pub mod Logra
pub mod Vivos
pub mod Reparto
pub mod Dispositivo
pub mod Niveles
pub mod Final
pub mod Intactos
pub mod Desalojo
