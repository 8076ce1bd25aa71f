-- ===== src/K8s.antt =====
-- internal/k8s: volume mounts, the ingress, the client of the cluster, restarts, the loading of images, and
-- the cluster that kind runs.
pub mod Ingress
pub mod Client
pub mod Cluster
pub mod Restart
pub mod Images
mod Tests
pub mod Volumes
