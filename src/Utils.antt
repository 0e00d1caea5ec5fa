-- ===== src/Utils.antt =====
-- internal/utils: the helpers that the rest of the program shares.
pub mod RingBuffer
