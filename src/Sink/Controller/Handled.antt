-- ===== src/Sink/Controller/Handled.antt =====
-- The handlers of the two controllers run to their end, with nothing of the other goroutine between
-- their steps.
use observability.Sink.Config.{Config}
