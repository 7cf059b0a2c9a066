-- ===== src/CommandLine/Paths/Dots.antt =====
-- `path_resolve` on absolute paths: the parts `.` and `..`.
