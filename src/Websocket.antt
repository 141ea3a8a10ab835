-- ===== src/Websocket.antt =====
-- src/websocket.cpp and src/websocket.h.
pub mod Frame
pub mod Connection
