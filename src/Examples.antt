-- ===== src/Examples.antt =====
-- Concrete data, and the theorems at it.
mod Data
mod OfMessages
mod OfRoles
mod OfStores
mod OfGateway
mod OfAdmin
mod OfUtilities
mod OfDispatch
mod OfSession
mod OfComposer
mod OfCalls
mod OfEndpoints
