-- ===== src/Cache/NopCache.antt =====
-- internal/cache/nop_cache.go: a cache that holds nothing.
use atlassian_sampling_proce.Base.{none, []}
use atlassian_sampling_proce.Cache.Interface.{Cache}

-- Its state is the empty struct.
unfoldable pub nop_decision_cache : {K V W : Type 0} → Cache K V (Unit {0}) W
nop_decision_cache = record {
  get = λ n _. (n, none);
  put = λ n _ _ w. (n, w);
  delete = λ n _ w. (n, w);
  values = λ _. [];
  keys = λ _. [];
  clear = λ n w. (n, w);
  size = λ _. 0;
  resize = λ n _ w. (n, w);
}
