-- ===== src/Maps/Delivered.antt =====
-- That a flush reaches the driver.
use webos_bridge_64to.Maps.Sides.{Sides}
