-- ===== src/Service/Install/Order/Whole.antt =====
-- `Install` makes its calls in the order of the stages.
use abctl.Service.Install.{ensure_namespace, create_volumes, create_all_secrets}
use abctl.Service.Install
