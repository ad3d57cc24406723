-- ===== src/Server/Stats.antt =====
-- src/server/stats.rs: the counts that the server reports.
use clandestine.Prelude.{ℕ, length}
use clandestine.Act.{Act, gets, ◌>>◌}
use clandestine.World.{Server}
use clandestine.Server.Channels.{await_map_read}

pub record ServerStats : Type 0 where
  pub visible_users : ℕ
  pub invisible_users : ℕ
  pub server_count : ℕ
  pub oper_count : ℕ
  pub channel_count : ℕ
  pub local_users : ℕ
  pub local_servers : ℕ
  pub max_local_users : ℕ
  pub global_users : ℕ
  pub max_global_users : ℕ

abbrev stats_of : Server → ServerStats
stats_of s = record {
  visible_users = 0;
  invisible_users = 0;
  server_count = 1;
  oper_count = 0;
  channel_count = length s.channels;
  local_users = length s.clients;
  local_servers = 0;
  max_local_users = length s.clients;
  global_users = length s.clients;
  max_global_users = length s.clients;
}

unfoldable pub get_stats : Act ServerStats
unfolding await_map_read
get_stats = do await_map_read; gets (λ w. stats_of w.server)
