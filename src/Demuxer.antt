-- ===== src/Demuxer.antt =====
-- libpager/queue.h and libpager/demuxer.c, from which a pager's workers take their requests.
pub mod Queue
pub mod Workers
pub mod Reply
