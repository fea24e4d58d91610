-- ===== src/Mutations.antt =====
-- shared/api/mutations: the message queries that a mutation changes before its answer arrives.
-- `QueryClient` of @tanstack/react-query is a parameter, with the documented laws of its cache.
pub mod Queries
pub mod MessageCache
pub mod Rollback
pub mod Refinement
mod MapClient
mod Tests
