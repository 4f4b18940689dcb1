-- ===== src/Driver.antt =====
-- pkg/driver: the identity, controller and node services, the validators and the mounter.
pub mod Csi
pub mod Provider
pub mod Validators
pub mod Controller
pub mod Identity
pub mod Mounter
pub mod Node
pub mod NodeLabel
pub mod Unimplemented
pub mod Server
pub mod Startup
pub mod Serving
