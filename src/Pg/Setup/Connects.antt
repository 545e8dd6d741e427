-- ===== src/Pg/Setup/Connects.antt =====
-- The loop that waits for the database.
