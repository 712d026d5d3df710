-- ===== src/Sink.antt =====
-- pkg/sink: the configuration of fluent-bit that the log sinks of the cluster make, and the
-- controllers that publish it.
pub mod Config
pub mod Controller
