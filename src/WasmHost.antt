-- ===== src/WasmHost.antt =====
-- The WASM host of apps/broker/src/deckhand/wasm_host_transport.py: the frames of its socket, and the JSON that
-- it may pass on.
pub mod Frames
pub mod PublicJson
