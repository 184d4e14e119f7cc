-- ===== src/Interpreter.antt =====
-- src/interpreter: the readers and writers of the bits and bytes of a page.
pub mod Fsip
pub mod Fsm
pub mod Sp
