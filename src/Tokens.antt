-- ===== src/Tokens.antt =====
-- `WebsocketTokenService` (backend/app/services/websocket_token_service.py): tokens that open a
-- WebSocket.
pub mod Service
pub mod SingleUse
