-- ===== src/Tests.antt =====
-- The theorems at concrete inputs: a gateway with two sensors on a day of June 2011.
mod Fixtures
mod Radios
mod Devices
mod Records
mod Uploads
mod Modems
mod Displays
mod Boards
mod Commands
mod Segments
mod Systems
mod Machines
mod Texts
