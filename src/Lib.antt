-- ===== src/Lib.antt =====
-- The native part of bluez_obex_native: the wire format in which C++ hands structs to Dart, the
-- conversion of filters and dictionaries, and the manager of the objects of the OBEX service.
--
-- The program. A Dart isolate opens a client through a C interface. For each client the native
-- code keeps a connection to the session bus, over which sdbus-c++ delivers signals, one after the
-- other, on the thread of its event loop. The object manager caches what the service org.bluez.obex
-- publishes, and posts a message for every change to the client's Dart port: a discriminator
-- byte, and a struct in the wire format. Dart passes options as maps of strings; they become
-- dictionaries of variants before they go to the service.
--
-- Files, by the part that they model (paths from the root of the repository):
--   Wire             native/include/glaze_meta.h: encode_field and decode_field, one pair of
--                    functions for each type of a member; encode and decode, the fold over
--                    meta<T>::fields. Wire/Fields, Vectors, Structs and Maps hold the laws.
--   Types            native/include/bluez_obex_types.h: the structs and their descriptors, and in
--                    Types/Complete that each descriptor names every member.
--   Filters          native/src/obex_proxy_utils.cpp: variant_map_from_strings and what it uses.
--                    Filters/Numbers, Csv, Rounds and Conversion hold the laws, Filters/Decimal the
--                    digits.
--   Properties       native/src/obex_proxy_utils.cpp: variant_to_string, the results of transfers
--                    and the readers ..._props_from_map. Properties/Printing holds a law.
--   ObjectManager    native/src/obex_object_manager.cpp: the tables of interfaces and properties
--                    (Interfaces), the messages (Messages), the state and the posts (State),
--                    on_interfaces_added and on_interfaces_removed (Objects), the handler of
--                    PropertiesChanged (Changes), the other signals, get_managed_objects and the
--                    order of signals (Signals), the constructor and the destructor
--                    (Lifetime). View is the client at the other end of the port, who goes by the
--                    payloads, and by the discriminator for the end of the stream only. Refinement,
--                    Tables, Steps, Ending and Changes/Settled hold the laws.
--   Sdbus, Bus       what the code calls of sdbus-c++, and the services behind it: both are
--                    parameters. A variant is read at the type that it holds, and a read at another
--                    type throws. The answer to a request may depend on all requests before it.
--   Proxies          native/src/obex_*_proxy.cpp: the methods of the proxies, each a task that makes
--                    requests and returns or throws. Folders is how list_messages takes a folder
--                    apart, Requests holds the laws.
--   Clients          native/src/obex_client.cpp: the paths of the managed objects by interface.
--   Devices          native/src/bluez_device_registry.cpp: the devices of the service org.bluez.
--   Registry         native/src/bluez_obex_client.cpp: the registry of clients, with next_id modulo
--                    2^64.
--   Native           native/src/bluez_obex_client.cpp: the C interface. Native itself is what the
--                    entry points share: copy_data, call_bytes, call_status, record_error and the
--                    guards. Arguments is make_variant_map, and Filtering its law. Sessions,
--                    Phonebooks and Messages are the entry points that return a status, Lifecycle
--                    is the others and the event loop of a client. Invocations lists the calls with
--                    their arguments; Contract, Errors, Delivery, Answers, Reach and Stale hold the
--                    laws.
--   Entries          std::unordered_map with numbers as keys: a list of entries.
--   Generated        native/generated: the proxies of the interfaces of org.bluez.obex. Getters lists
--                    the readers of properties, Getters/Shown the members of the structs that show
--                    them, Getters/Agreement holds the law.
--   Calls            tasks: what a method makes of the requests before it.
--   Common           shared names, texts as lists of bytes, tests on numbers, options.
--   OrderedMap       std::map with texts as keys: a list that insert keeps in ascending order.
--   Samples, Runs    a library and services that answer, and runs on concrete inputs.
--
-- State. Manager is the class ObexObjectManager: failed is failed_, interfaces_by_path is
-- interfaces_by_path_, posted is all that went to the port, requests all that went to the bus. A
-- handler takes the state and returns it; a signal is a step, run a sequence of them. The lock of
-- the class guards the cache only against the destructor, since one thread runs the handlers.
--
-- NativeState is the globals of bluez_obex_client.cpp, of the one thread that calls, and the blocks
-- that malloc has given out and free has not taken back, under their addresses. An entry point takes
-- its arguments, null included, and this state, and returns its status, what it leaves in *out and
-- the requests that it made, with the next state. Native/Reach has the steps between states: a call,
-- a block that is freed, a client that comes or goes, a signal on the thread of a client. The
-- services and malloc may answer otherwise at each step.
--
-- Parameters. Sdbus, the library and its variants; Bus, the services; Memory, malloc, whose
-- addresses are not null and not in use; Platform, the width of a pointer, of which a handle is
-- one. How opening the session bus and starting a thread end, and
-- what Dart_InitializeApiDL returns, are arguments of the entry points that call them.
--
-- Bounds. Integers of the wire have their width: encode writes n bytes of a number, a length is
-- written modulo 2^32, and the theorems on round trips ask that a value fits. decode has none
-- where the C++ code reads past the end of the buffer. split_csv runs on fuel, two more than the
-- length of the text, which is proved to be enough. Everything else is structural recursion.
--
-- Not modelled: the connections to the bus and the threads, of which the model keeps what they
-- deliver, in order; the calls of two Dart threads at once, which the mutex of the registry puts in
-- an order; the memory of messages; the API of the Dart VM, which the code only calls; the Dart
-- package.
pub mod Common
pub mod OrderedMap
pub mod Wire
pub mod Types
pub mod Sdbus
pub mod Filters
pub mod Bus
pub mod Properties
pub mod Calls
pub mod Proxies
pub mod Entries
pub mod Registry
pub mod ObjectManager
pub mod Devices
pub mod Clients
pub mod Generated
pub mod Native
pub mod Samples
pub mod Runs
