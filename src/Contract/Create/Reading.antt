-- ===== src/Contract/Create/Reading.antt =====
-- A stream that was opened, read by the views (src/lib.rs).
use stream_pay_contracts.Host.{Host}
use stream_pay_contracts.World.{World}
