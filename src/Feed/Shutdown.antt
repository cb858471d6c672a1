-- ===== src/Feed/Shutdown.antt =====
-- How a session of resources/feedhandler.py ends: by a signal, or by a record that cannot be read.
