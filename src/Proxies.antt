-- ===== src/Proxies.antt =====
-- The proxies of the objects of the OBEX service.
pub mod Folders
pub mod Access
pub mod Messages
pub mod Phonebooks
pub mod Requests
