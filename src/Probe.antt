-- ===== src/Probe.antt =====
-- mac/Probe/main.c and MultitouchSupportABI.h: the probe that prints what the trackpad reports.
pub mod Abi
pub mod Counters
pub mod Max
pub mod Main
mod Tests
