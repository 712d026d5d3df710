-- ===== src/Informers.antt =====
-- pkg/client/informers/externalversions: the factory of shared informers. A type of Go stands as its
-- name, and an informer of client-go as the address that `NewSharedIndexInformer` gives it, with what
-- it was made of.
pub mod Factory
pub mod Kinds
pub mod Access
pub mod ListerAccess
pub mod Keys
pub mod Started
pub mod Ops
pub mod Runs
pub mod Sharing
pub mod Resources
pub mod Watched
