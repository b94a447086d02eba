-- ===== src/Tests.antt =====
-- Concrete runs of the definitions and instances of the theorems.
mod Names
mod Addresses
mod Fetching
mod Storing
mod Updating
mod Serving
mod Settings
mod Sessions
mod Editing
mod Clients
mod Documents
