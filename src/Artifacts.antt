-- ===== src/Artifacts.antt =====
-- Where downloaded artifacts are put: internal/cli/service_artifacts.go and
-- internal/cli/service_download_output.go.
pub mod Names
pub mod Extract
pub mod Ready
pub mod Download
pub mod DownloadAll
pub mod DownloadOne
pub mod Components
pub mod FreeNames
pub mod Distinct
pub mod Confined
pub mod Finish
pub mod Failing
mod Tests
mod DownloadTests
