-- ===== src/Pruebas.antt =====
-- Runs of the definitions on concrete data, and the theorems applied to such data.
mod DeMemoria
mod DeCpu
mod DeUtils
mod DeFilesystem
mod DeKernel
