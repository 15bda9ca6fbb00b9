-- ===== src/InvokeTimer/Tests.antt =====
-- The theorem about evpp/invoke_timer.cc at a timer of its own.
use evpp.InvokeTimer.{InvokeTimer}
