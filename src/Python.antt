-- ===== src/Python.antt =====
-- What the services use of Python's library on text, over code points.
pub mod Text
pub mod Uuid
