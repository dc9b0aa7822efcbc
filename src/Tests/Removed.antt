-- ===== src/Tests/Removed.antt =====
-- Deletions of the live rows of the world of Tests/Services.
use dijex_api.Prelude.{◌≡◌, refl, none}
use dijex_api.Text.{codes}
use dijex_api.Action
use dijex_api.Action.{done}
use dijex_api.Auth.Tables.{first}
use dijex_api.Platform
use dijex_api.Registry.Rows as R
use dijex_api.Registry.Service.{delete_registry}
use dijex_api.Server.Rows as V
use dijex_api.Server.Service.{delete_server}
use dijex_api.Services.Removed.{delete_registry-gone, delete_server-gone}
use dijex_api.Tests.Services.{platform, world}

deletes_r1 :
    (delete_registry platform (codes "r1") world).1
    ≡ done (record { id = codes "r1"; deleted_at = 10 })
unfolding delete_registry Platform.require_id Action.◌>>=◌ Platform.query
deletes_r1 = refl

deletes_s1 :
    (delete_server platform (codes "s1") world).1
    ≡ done (record { id = codes "s1"; deleted_at = 10 })
unfolding delete_server Platform.require_id Action.◌>>=◌ Platform.query
deletes_s1 = refl

delete_registry-gone_example :
    first (R.is_row (codes "r1")) (delete_registry platform (codes "r1") world).0.registries ≡ none
delete_registry-gone_example = delete_registry-gone platform (codes "r1") world _ deletes_r1

delete_server-gone_example :
    first (V.is_row (codes "s1")) (delete_server platform (codes "s1") world).0.servers ≡ none
delete_server-gone_example = delete_server-gone platform (codes "s1") world _ deletes_s1
