-- ===== src/Buf/Laws.antt =====
-- Buf: the words on a machine in order.
use zown.Prelude.{Option, Option}
use zown.Buf.Safe.{Safe}
