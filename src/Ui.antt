-- ===== src/Ui.antt =====
-- internal/ui: the parts of the terminal interface that compute without the terminal.
pub mod Compose
