-- ===== src/Tests.antt =====
-- Runs of the modelled code, and the theorems at concrete inputs.
mod Data
mod Trees
mod Texts
mod Handlers
mod Links
mod Mounts
mod Clients
mod Endings
mod Opened
