-- ===== src/Lib.antt =====
-- TP Sistemas Operativos: a simulated operating system of four processes that talk over sockets.
-- The kernel (kernel) plans threads, the processor (cpu) runs their pseudocode, the memory (memoria)
-- keeps the instructions, the contexts and the bytes of the processes, and the filesystem
-- (filesystem) stores dumps. They share the messages of utils. All paths are under
-- tp-2024-2c-EstoyEntrenando-main.
--
-- Parts and files
--
-- Base, with Base/: native numbers, Boolean tests, lists, 32-bit words (Base/Words), and the way a
-- call ends (Base/Resultado): with a value, by `exit` or a failed `assert` (`salir`), or where C
-- leaves the behaviour undefined, as with a NULL pointer or an access out of bounds (`falla`).
--
-- Commons: the list operations of the so-commons library (commons/collections/list.h), which is not
-- part of the repository, as a record of operations and of the laws that its documentation states.
-- Every definition that uses them takes the record as its first argument. Commons/Referencia is a
-- plain implementation that meets the laws; the examples use it.
--
-- Utils: utils/src/utils/serializacion.c, serializacion.h and desserializar.c. A socket is the list of
-- the bytes that are still to arrive, and `recv` takes all that it asks for. Utils/OpCode has the
-- message codes, Utils/Bytes numbers as four bytes, Utils/Paquete the sender, Utils/Recepcion the
-- receiver; Utils/Viaje, Utils/Mensajes and Utils/Cadenas have the lemmas on whole messages.
--
-- Memoria: memoria/src/mainMemoria.c. The globals `huecos_libres`, `lista_de_procesos` and
-- `espacio_contiguo_en_memoria` are the record `Memoria`; what a function writes through a pointer
-- that a search returned is written in the list at the first element that passes the search.
-- Memoria/Huecos has the holes, Memoria/Hilos the instruction files, Memoria/Procesos the processes,
-- Memoria/Kernel `atender_cliente`, Memoria/Cpu `atender_cpu`, and Memoria/Inicio `main`. The proofs are
-- in Memoria/Ajuste (searches), Memoria/Ocupacion and Memoria/Particion (addresses and who holds
-- them), Memoria/Historia (runs), Memoria/Espacio (bytes), Memoria/Contexto (registers) and Memoria/Bajas
-- (removal from the list of processes). Requests of the kernel are served one after the other.
--
-- Cpu: cpu/src/mainCPU.c. The globals are the record `Cpu`, which also keeps what has been sent to the
-- memory and to the kernel, and what the memory still has to say. Cpu/Registros has the instructions on
-- registers, Cpu/Instruccion the parser, Cpu/Mmu the translation of addresses and the dialogue with
-- the memory, Cpu/Ejecucion the system calls, `ejecutar_instruccion`, `check_interrupt` and one turn of
-- the cycle of instructions. The proofs are in Cpu/Aritmetica, Cpu/Analisis, Cpu/Traduccion,
-- Cpu/Interrupcion, Cpu/Guardado (a saved
-- context), and Cpu/Protocolo, which puts the processor and the memory together.
--
-- Filesystem: filesystem/src/mainFS.c. The bit array of commons/bitarray.h, which is not part of the
-- repository either, is a record of operations and laws. `Disco` has the bitmap, the bytes of the file
-- of blocks and what is saved in the metadata files. Filesystem/Bitmap has the search for free blocks,
-- Filesystem/Archivo the request from its bytes to those of the answer; the proofs are in
-- Filesystem/Reserva, Filesystem/Grabado, and Filesystem/Pedido, where the memory's request meets it.
--
-- Kernel: kernel/src/pcbYtcb.h, pcbYtcb.c and mainkernel.c. Threads, processes and mutexes are shared
-- through pointers, so they live in stores by address, and a list of pointers is a list of addresses;
-- an address that was freed has no content, and following it is a fault. The globals are the record
-- `Kernel`, with what has been sent to the processor and what it still has to say. Kernel/Estado has the
-- state and the searches, Kernel/Colas the queues of READY and the three ways to choose a thread,
-- Kernel/Avisos the dialogue with the memory, Kernel/Altas and Kernel/Bajas how threads and processes
-- come and go, Kernel/Syscalls the system calls, Kernel/Planificacion `ejecutar_hilo` and one round of
-- each thread of the module, Kernel/Pasos their rounds in any order. Kernel/Asegura has rules for what
-- a call leaves behind; the proofs are in Kernel/Eleccion (which thread is chosen),
-- Kernel/Niveles (the queues of many levels), Kernel/Semaforo
-- (the semaphores against the queues, function by function), Kernel/Exclusion and
-- Kernel/Reparto (mutexes against a lock with a queue, the second on threads that can be followed, which
-- are those of Kernel/Vivos), Kernel/Dispositivo (an operation of the device from the processor on),
-- Kernel/Desalojo (the end of a quantum, with the processor), Kernel/Final (the loop that ends the threads of a process), and
-- Kernel/Caida (what leaves READY without its semaphore). Kernel/Logra has the rules for calls that are
-- to end with a value, and Kernel/Intactos what the calls that wake a thread leave alone.
--
-- Pruebas: runs on concrete data.
--
-- Bounds: a `uint32_t` is a natural number with the wrap-around at 2 ^ 32 written out, an `int` is
-- read as its bit pattern, and a size that is negative as an `int` can not be allocated. Only
-- one loop runs on fuel, the `for` of `finalizar_proceso`, with one round more than the list has threads:
-- each round takes one out. Every other loop goes over a list, a string, or the turns that are left.
-- Addresses are natural numbers, and `malloc` never gives one twice.
--
-- Not modelled: interleavings inside one round of a thread of the kernel, or inside one request to the
-- memory or the filesystem, so that no race on a shared list is covered, but for the waits where a round is
-- cut in two (Kernel/Pasos); the loops that call one turn or round after another without end; the
-- creation and the mapping of the filesystem's files; delays, logs, and the opening of connections; the
-- release of memory, but for the kernel's threads, processes and mutexes. The clock, the conversion of
-- numbers to text, what the filesystem answers to the memory and the memory to the kernel, the files
-- that can be opened, and the address of a string in memory are parameters.
pub mod Base
pub mod Commons
pub mod Utils
pub mod Memoria
pub mod Cpu
pub mod Filesystem
pub mod Kernel
pub mod Pruebas
