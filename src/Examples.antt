-- ===== src/Examples.antt =====
-- The theorems applied to concrete devices, messages and files.
mod Samples
mod Middleware
mod Dds
mod Forwarding
mod Settings
mod Files
mod Producer
mod Inspector
mod Zenoh
mod DdsCommands
