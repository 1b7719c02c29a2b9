-- ===== src/Reconciler/Whole.antt =====
-- A whole run of Reconcile (pkg/subnet/subnet_reconciler.go).
use virtnet.Ip.{Ip}
use virtnet.Cluster.{Cluster}
