-- ===== src/Informer.antt =====
-- The reflector behind every informer: resources/src/informer/reflector.rs and
-- resources/src/models/etcd.rs. `uri` is `Object::uri` of the watched type; what the API server
-- answers is the input: the result of a listing, and the messages of a watch connection.
pub mod Defs
pub mod View
pub mod Replay
pub mod Relist
