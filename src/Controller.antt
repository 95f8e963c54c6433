-- ===== src/Controller.antt =====
-- internal/controller: the operator's reconcilers.
pub mod Names
pub mod Children
pub mod Policies
pub mod Resources
pub mod Harvest
pub mod KeySecret
pub mod Grants
pub mod Conditions
pub mod Permitted
pub mod RouteStatus
pub mod Attached
pub mod PolicyStatus
pub mod OnionBalance
pub mod RouteReconcile
pub mod GrantWatch
pub mod Samples
pub mod Tests
pub mod RouteTests
mod KeyTests
mod PolicyTests
mod ResourceTests
