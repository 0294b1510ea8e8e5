-- ===== src/Ds/Conn.antt =====
-- src/ds/conn.rs: the tasks of the driver station. Each is a function of one event: what the awaited
-- sources deliver is an argument, and what the task does outside its own state is a list of effects.
pub mod Receiver
pub mod Sender
pub mod Tcp
pub mod Simulator
