-- ===== src/ObjectManager.antt =====
-- native/src/obex_object_manager.cpp: the cache of the objects of the OBEX service, and what is
-- posted to Dart when they come, change and go.
pub mod Interfaces
pub mod Messages
pub mod State
pub mod Objects
pub mod Changes
pub mod Signals
pub mod Lifetime
pub mod View
pub mod Refinement
pub mod Tables
pub mod Steps
pub mod Ending
