-- ===== src/Examples.antt =====
-- Concrete connections, sessions and messages on which the theorems are applied.
mod Client
mod Server
mod Tunnel
mod Local
mod Http
mod Launch
mod Ech
mod Socks5
mod Association
mod Beside
mod Handlers
