-- ===== src/Plan/Corner.antt =====
-- A shortcut may pass a blocked corner that A* itself keeps clear of.
