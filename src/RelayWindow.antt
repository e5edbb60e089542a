-- ===== src/RelayWindow.antt =====
-- internal/relaywindow: the upload windows of a relay and the gate before a server connection.
pub mod Window
pub mod Week
pub mod Gate
pub mod Admission
mod Examples
