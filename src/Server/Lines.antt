-- ===== src/Server/Lines.antt =====
-- src/server/xline.rs: the access lines. The methods that add, remove and load lines change a copy
-- of the configuration, and drop it.
use clandestine.Prelude.{String, Bool, false, ◌||◌, List, [], ◌∷◌, ◌++◌}
use clandestine.Config.{KLine, OLine, AccessConfig}
use clandestine.Database.{Database, get_klines, without_mask}
use clandestine.World.{Client, Env}
use clandestine.Act.{Act, pure, gets, ◌>>=◌}
use clandestine.Client.Send.{get_mask}
use clandestine.Server.Mask.{mask_match}

unfoldable pub any_oline : Env → String → List OLine → Bool
any_oline env mask [] = false
any_oline env mask (o ∷ more) = mask_match env mask o.mask || any_oline env mask more

unfoldable pub has_oline : Client → Act Bool
unfolding any_oline
has_oline client = gets (λ w. any_oline w.env (get_mask client) w.server.config.access.olines)

unfoldable pub any_kline : Env → String → List KLine → Bool
any_kline env host [] = false
any_kline env host (k ∷ more) = mask_match env host k.mask || any_kline env host more

unfoldable pub is_host_klined : String → Act Bool
unfolding any_kline
is_host_klined host = gets (λ w. any_kline w.env host w.server.config.access.klines)

unfoldable pub load_persisted_lines : Database → Act (Unit {0})
load_persisted_lines db = do
  access ← gets (λ w. w.server.config.access)
  let merged : AccessConfig = record access { klines = access.klines ++ get_klines db }
  pure tt

unfoldable pub add_kline : KLine → Act (Unit {0})
add_kline kline = do
  access ← gets (λ w. w.server.config.access)
  let changed : AccessConfig = record access { klines = access.klines ++ kline ∷ [] }
  pure tt

unfoldable pub remove_kline : String → Act (Unit {0})
remove_kline mask = do
  access ← gets (λ w. w.server.config.access)
  let changed : AccessConfig = record access { klines = without_mask mask access.klines }
  pure tt
