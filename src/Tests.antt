-- ===== src/Tests.antt =====
-- Concrete machines, and the properties of the kernel applied to them.
mod Machines
mod Console
mod Frames
mod Paging
mod Devices
mod Booted
mod Tasks
mod Start
mod Ports
mod Lines
mod Spaces
