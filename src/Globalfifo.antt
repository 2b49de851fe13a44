-- ===== src/Globalfifo.antt =====
-- The other two versions of the globalfifo driver, code/globalfifo/ch8 and code/globalfifo/ch12,
-- against the one of code/globalfifo/ch9, which the module Fifo models.
pub mod Ch8
pub mod Ch12
pub mod Platform
