-- ===== src/Tests.antt =====
-- Runs of the model on small inputs, and the theorems applied to them.
mod Order
mod Samples
mod Data
mod Cache
mod Services
mod Partial
mod Runtime
mod Cli
mod Index
mod Warm
mod IndexCommand
mod TritonUtil
mod Debugging
mod Display
mod Ranks
mod Plugins
mod Threads
mod Newest
mod Twice
mod VllmIndex
mod Program
