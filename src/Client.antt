-- ===== src/Client.antt =====
-- pkg/client/clientset/versioned/typed/sink/v1alpha1: the typed clients of the four resources and
-- their fakes. The methods of the four types differ in the name of the resource alone, and in
-- `UpdateStatus`, which the metric sinks have.
pub mod Request
pub mod Typed
pub mod Fake
pub mod Asked
pub mod Agreement
pub mod Confined
pub mod Timeouts
pub mod Sinks
pub mod FakeSinks
pub mod Groups
pub mod Clientset
pub mod FakeGroups
