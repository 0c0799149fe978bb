-- ===== src/Web.antt =====
-- crates/essenty-web/src/storage.rs: namespaced keys and the text form of stored bytes (Storage), the
-- text form (Hex) and the names (Names); wasm/browser_storage.rs: load and save (Browser), what they
-- need of the browser (Area), and the parts of their proof (Saved, Calmly, Gathering, Loading).
-- history.rs, lifecycle.rs and wasm beside them: the bindings to a page (Page), its listeners
-- (Attaching) and its events (Visits).
pub mod Storage
pub mod Hex
pub mod Names
pub mod Page
pub mod Attaching
pub mod Visits
pub mod Browser
pub mod Area
pub mod Saved
pub mod Calmly
pub mod Gathering
pub mod Loading
pub mod Examples
mod PageExamples
pub mod BrowserExamples
