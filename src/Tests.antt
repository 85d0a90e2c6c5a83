-- ===== src/Tests.antt =====
-- Runs of the models on concrete inputs.
mod Fixtures
mod Tables
mod Buffers
mod Sockets
mod Devices
mod Listening
mod Inspector
mod Blocked
mod Reached
mod Calls
mod Proxying
mod Ports
