-- ===== src/Server/Errors.antt =====
-- `send_error_response`.
