-- ===== src/Tests.antt =====
-- Runs of the theorems at concrete inputs.
mod Wire
mod Markers
mod Control
mod Pumps
mod Restarts
mod Threads
mod Processes
mod Options
mod Responses
mod Directories
mod Answers
mod Sockets
mod Timeouts
