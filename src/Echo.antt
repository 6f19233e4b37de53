-- ===== src/Echo.antt =====
-- The two programs of example/echo: the server process and the command line client.
pub mod ServerMain
pub mod ClientMain
pub mod Launch
pub mod Start
pub mod Promise
pub mod Requests
pub mod Answers
