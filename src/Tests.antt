-- ===== src/Tests.antt =====
-- Runs of the model on small data, which show that each result's hypotheses can hold.
mod Reading
mod Devices
mod Clients
mod Wire
mod Media
mod Requests
mod Network
mod Entrance
mod Lobby
mod Members
mod Voices
mod Levels
mod Fetching
mod Viewing
mod Camera
mod Hearing
mod Layouts
