-- ===== src/Agent.antt =====
-- internal/agent, and cmd/agent/main.go: the loops and the start.
pub mod Outbound
pub mod Transform
pub mod RoundTrip
pub mod HttpClient
pub mod GrpcClient
pub mod Loop
pub mod Start
pub mod Goroutines
pub mod Collecting
