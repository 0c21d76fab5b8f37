-- ===== src/Daemon/Purge.antt =====
-- What `handleDeleteTenant` of internal/daemon/server.go leaves for the reconciler.
use controlai.Store.Rows.{Tables}
