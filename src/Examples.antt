-- ===== src/Examples.antt =====
-- Runs of the model at concrete inputs.
mod Constraints
mod Xslt
mod Nand
mod Worm
mod Layers
mod Runtime
mod Routing
mod Ere
mod Dsl
mod Continuity
mod Art
