-- ===== src/Api.antt =====
-- src/malloc_api.c, as built without DEBUG and STATISTICS: the exported functions, which initialise the
-- arena at the first call.
use sealloc.Base.{ℕ, ◌==◌}
use sealloc.World.{M, ◌>>=◌, ◌>>◌, gets, when}
use sealloc.Arena.{arena_init}
use sealloc.Sealloc.{sealloc_malloc}
use sealloc.Sealloc.Free.{sealloc_free}
use sealloc.Sealloc.Realloc.{sealloc_realloc, sealloc_calloc}

unfoldable pub initialise : M (Unit {0})
initialise = gets (λ w. w.arena.is_initialized) >>= λ i. when (i == 0) arena_init

unfoldable pub malloc : ℕ → M ℕ
malloc size = initialise >> sealloc_malloc size

unfoldable pub free : ℕ → M (Unit {0})
free ptr = sealloc_free ptr

unfoldable pub calloc : ℕ → ℕ → M ℕ
calloc nmemb size = initialise >> sealloc_calloc nmemb size

unfoldable pub realloc : ℕ → ℕ → M ℕ
realloc ptr size = initialise >> sealloc_realloc ptr size
