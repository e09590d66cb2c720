-- ===== src/Gateway.antt =====
-- internal/gateway/gateway.go: the routing of requests, and the setup of routes in main.go.
pub mod SlaveIds
pub mod Routing
pub mod Start
