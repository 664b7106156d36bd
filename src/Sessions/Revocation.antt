-- ===== src/Sessions/Revocation.antt =====
-- routes/sessions.ts: revoking a session touches the caller's own live session and no other row.
