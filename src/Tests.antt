-- ===== src/Tests.antt =====
-- Concrete parameters, and the theorems at concrete inputs.
mod Machines
mod Server
mod Keys
mod Setting
mod ConditionExamples
mod LibraryExamples
mod ControllerExamples
mod Runs
mod Patches
mod LifeExamples
mod ClusterExamples
mod ManagerExamples
mod MainExamples
