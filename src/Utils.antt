-- ===== src/Utils.antt =====
-- pkg/utils: the volume parameters and secret keys, the unit conversions, and the volume record.
pub mod Context
pub mod Convert
pub mod Parser
