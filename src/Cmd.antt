-- ===== src/Cmd.antt =====
-- cmd: the start-up of the controllers and of the webhook. `log.Fatal` ends the process with a message.
-- What the libraries of the environment, of Kubernetes, of fluentd and of TLS return is a parameter.
pub mod Exit
pub mod SinkController
pub mod MetricController
pub mod EventController
pub mod Validator
