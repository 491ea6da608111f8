-- ===== src/Tests.antt =====
-- The theorems at concrete inputs.
mod Containers
mod Mutators
mod Tools
mod Sensors
mod Dictionaries
mod Executions
mod Rules
mod Loads
mod Choices
mod Recordings
