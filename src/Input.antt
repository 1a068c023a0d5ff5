-- ===== src/Input.antt =====
-- drivers/keyboard.c and drivers/mouse.c: the PS/2 input devices.
pub mod Keyboard
pub mod Mouse
mod Tests
