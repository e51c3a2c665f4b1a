-- ===== src/Examples.antt =====
-- Concrete states, and the theorems at them: one module for each part of the program.
mod Lists
mod Threads
mod Calls
mod Pages
mod Allocations
mod Devices
mod Typing
mod Locking
mod Joining
mod Copying
mod Families
mod Booting
mod Endings
mod Spawning
mod Opening
mod Handling
