-- ===== src/Access/Authorizer/Opens.antt =====
-- A grant that was issued opens its camera.
use rtsp_proxy.Access.Telemetry.{Telemetry}
