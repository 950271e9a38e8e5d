-- ===== src/Conversations.antt =====
-- Conversations and their messages: backend/app/services/conversation_service.py on
-- backend/app/repositories/conversation_repository.py, and backend/app/core/pagination.py.
pub mod Cursors
pub mod RoundTrip
pub mod Queries
pub mod Service
pub mod Deletion
pub mod Pages
pub mod History
