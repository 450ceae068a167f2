-- ===== src/Core/Tags/Alloc.antt =====
-- What `mctp_alloc_tag` returns, and when it returns -EBUSY.
