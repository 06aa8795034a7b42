-- ===== src/Loopback/Last.antt =====
-- src/activations/claudecode_loopback/storage.rs: two responses to one request.
