-- ===== src/System.antt =====
-- The agents and the controllers together: what one run of a handler does to the pools of a Subnet.
pub mod Found
pub mod Agents
pub mod Releases
pub mod Endpoints
pub mod Runs
