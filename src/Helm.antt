-- ===== src/Helm.antt =====
-- internal/helm: chart references and versions, the images of a chart, and the chart's values.
mod Tests
pub mod Semver
pub mod Chart
pub mod Locate
pub mod Images
pub mod Values
