-- ===== src/Examples.antt =====
-- Concrete systems, servers, messages and lists, and what the functions do on them.
mod Systems
mod Messages
mod Servers
mod Registers
mod Lists
mod Admissions
mod Lines
mod Tables
mod Operations
mod Streams
mod Exchanges
