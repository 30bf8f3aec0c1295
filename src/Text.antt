-- ===== src/Text.antt =====
-- What mac/Agent/main.c and mac/Probe/main.c use of the C library to read their arguments. A string is the
-- list of its bytes, without the zero at its end.
pub mod Numbers
pub mod Decimal
