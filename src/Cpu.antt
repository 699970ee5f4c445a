-- ===== src/Cpu.antt =====
-- cpu: the processor, cpu/src/mainCPU.c.
pub mod Registros
pub mod Instruccion
pub mod Mmu
pub mod Ejecucion
pub mod Aritmetica
pub mod Analisis
pub mod Traduccion
pub mod Protocolo
pub mod Interrupcion
pub mod Guardado
