-- ===== src/Routes.antt =====
-- shared/config/routes.ts and features/route-guard: the paths of the application. Percent coding and
-- the platform's `URL` are parameters.
pub mod Classify
pub mod Selection
pub mod Blank
pub mod RoundTrip
pub mod ReturnTo
pub mod Query
mod Tests
