-- ===== src/Radio.antt =====
-- The radio side of the unit, sw/protocolrimms.c: frames from the sensors, the acknowledgements
-- sent back, the samples in a frame, the alarms on them, and the watch over silent sensors.
pub mod State
pub mod Sth11
pub mod Thresholds
pub mod Ack
pub mod Payload
pub mod Start
pub mod Receiver
pub mod Logging
