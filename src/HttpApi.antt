-- ===== src/HttpApi.antt =====
-- services/control-plane/internal/httpapi: what the handlers share. A handler is an action on the
-- world that ends with a response; a response that was written early ends it. A JSON body is an
-- `Option` of its decoded value, absent when it does not decode. Log lines are left out.
pub mod Actions
pub mod Names
pub mod Dto
pub mod Applications
pub mod Functions
pub mod Builds
pub mod Worker
pub mod Invoke
pub mod Metrics
pub mod Logs
pub mod Api
pub mod Guards
