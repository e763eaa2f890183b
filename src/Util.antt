-- ===== src/Util.antt =====
-- The utilities under util/.
pub mod Text
