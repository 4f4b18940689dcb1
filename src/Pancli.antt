-- ===== src/Pancli.antt =====
-- pkg/pancli: the client that runs PanFS commands over SSH, and the fake client of the sanity mode.
pub mod Errors
pub mod Options
pub mod Ssh
pub mod Client
pub mod Fake
