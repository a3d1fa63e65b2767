-- ===== src/Provider.antt =====
-- provider/src: the streams that poll a provider, and merkle proofs. The provider itself, the
-- executor and the timer are not under this crate's control: what they answer is an input.
pub mod Poll
pub mod Pending
pub mod Watcher
pub mod Tips
pub mod Last
pub mod Merkle
