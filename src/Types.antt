-- ===== src/Types.antt =====
-- native/include/bluez_obex_types.h: the structs that cross the wire, a record each, with the list
-- of its members in the order of the encoding.
pub mod Session
pub mod Transfer
pub mod Phonebook
pub mod Message
pub mod Objects
pub mod Device
pub mod Complete
