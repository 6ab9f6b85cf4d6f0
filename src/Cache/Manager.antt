-- ===== src/Cache/Manager.antt =====
-- kv_cache.py, `KvCacheManager` as the scheduler sees it: the generic pool and the grouped pools of
-- one manager, of which a model uses one. The flag `enable_prefix_cache` stands in both.
use pypto_serving.Prelude.{Bool, not, ◌==◌, length}
use pypto_serving.Cache.Pool.{Pool}
use pypto_serving.Cache.Groups.{Groups}

pub record Manager : Type 0 where
  pub pool : Pool
  pub groups : Groups

abbrev pub has_groups : Manager → Bool
has_groups m = not (length m.groups.pools == 0)

abbrev pub with_pool : Manager → Pool → Manager
with_pool m p = record m { pool = p }

abbrev pub with_groups : Manager → Groups → Manager
with_groups m g = record m { groups = g }
