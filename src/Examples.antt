-- ===== src/Examples.antt =====
-- Concrete runs, and the theorems at concrete inputs, over small stand-ins for the outside crates.
mod Toy
mod Inputs
mod Runs
mod Witnesses
mod UnitTests
mod Prover
mod Export
mod Tree
mod Digits
mod Session
mod Commands
mod Stored
mod Builds
mod Scripts
