-- ===== src/Api/Templates/Lookup.antt =====
-- The lookup of a template by its code, locale and channel: the API's and the worker's.
use notification_service_kaf.Runtime.{Worker}
use notification_service_kaf.Worker.Repo
