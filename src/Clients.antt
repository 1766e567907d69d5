-- ===== src/Clients.antt =====
-- apps/api/src/clients: the clients of a firm, whose personal data is stored encrypted.
pub mod Pii
pub mod Service
pub mod Listing
pub mod Team
pub mod Laws
