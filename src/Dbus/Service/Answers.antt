-- ===== src/Dbus/Service/Answers.antt =====
-- Method calls of dbus/src/service.hpp over whole runs and the shutdown.
