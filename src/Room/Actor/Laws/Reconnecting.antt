-- ===== src/Room/Actor/Laws/Reconnecting.antt =====
-- What a grant of reconnection allows.
use colyseus_rs.Base.{text_eq}
