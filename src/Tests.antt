-- ===== src/Tests.antt =====
-- Runs of the definitions on concrete inputs, and the theorems applied to them.
mod Mapped
mod Given
mod Parse
mod Generate
mod Structures
mod Runner
mod Verified
mod Script
mod Handshake
mod Messages
mod Built
