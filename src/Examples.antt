-- ===== src/Examples.antt =====
-- A scripted world, and the theorems at concrete inputs in it.
mod World
mod Store
mod Consumer
mod Supervisor
mod Probe
mod Publisher
mod Rewriter
mod Session
mod Server
mod Config
mod Keys
