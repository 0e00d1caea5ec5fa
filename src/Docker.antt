-- ===== src/Docker.antt =====
-- internal/docker: the frames of a container's log.
pub mod LogReader
