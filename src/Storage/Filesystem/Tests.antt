-- ===== src/Storage/Filesystem/Tests.antt =====
-- The storage on disk over a list of files.
