-- ===== src/Sensor.antt =====
-- libvfuzz-core/src/sensor: the sensors' common base, the processors that reduce the values of a
-- sensor to what is new, the sensors, and the container that holds them all.
pub mod Base
pub mod Processor
pub mod Combination
pub mod FlowTrace
pub mod Kinds
pub mod Profile
pub mod Auto
pub mod Store
pub mod Container
