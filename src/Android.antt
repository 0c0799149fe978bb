-- ===== src/Android.antt =====
-- crates/essenty-android/src/native_state.rs: the container of saved state (Container), that decoding
-- undoes encoding (RoundTrip), and the state of an activity (ActivityState) in the next one (Recreation).
-- back_handler/platform.rs: the back handler (BackHandler), what a drain of its callbacks leaves (Draining),
-- what it asks of Java (Java), its jobs (JavaMain) and its proxy (Proxy), the mutexes of registrations
-- (Owning, Slots), the two threads (Threads, Jobs, Registering), and what reconciling (Serving) and ending
-- (Teardown) lead to.
pub mod Container
pub mod RoundTrip
pub mod ActivityState
pub mod Recreation
pub mod BackHandler
pub mod Java
pub mod JavaMain
pub mod Proxy
pub mod Owning
pub mod Slots
pub mod Threads
pub mod Jobs
pub mod Registering
pub mod Serving
pub mod Teardown
mod JavaExamples
pub mod Draining
pub mod Examples
pub mod BackExamples
