-- ===== src/Pagemap.antt =====
-- libpager/pagemap.h: the data of one page, its order, and the shared set of page data.
pub mod Entry
pub mod Order
pub mod Intern
