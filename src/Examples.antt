-- ===== src/Examples.antt =====
-- The theorems of the tree at concrete devices, tables and datagrams.
mod Data
mod Frames
mod Peers
mod Announcements
mod Bytes
mod Pages
mod Samples
mod Loop
mod Sound
mod Clocks
