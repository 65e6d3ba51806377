-- ===== src/Query/Examples.antt =====
-- The names EGL_EXTENSIONS (0x3055) and EGL_CLIENT_APIS (0x308d) in the cache of stub/egl_stub.c.
use webos_bridge_64to.Common.{ℕ, ◌≡◌, List, [], ◌∷◌, arith, ℕ_discrete, ◌==◌, if◌then◌else◌}
use webos_bridge_64to.Query.Strings.{StringCache, no_strings, is_empty, keep, egl_query_string}
use webos_bridge_64to.Query.Alias.{query_aliases}

code : Unit {0}
unfolding ℕ_discrete is_empty keep egl_query_string
code = tt

-- The bytes of "GL" for the client APIs, and of "X" for anything else.
abbrev ask : ℕ → ℕ → List ℕ
ask dpy name = if name == 0x308d then 71 ∷ 76 ∷ [] else 88 ∷ []

abbrev after_extensions : StringCache
after_extensions = (egl_query_string ask 1 0x3055 no_strings).1

query_aliases_example : egl_query_string ask 1 0x308d after_extensions ≡ (88 ∷ [], after_extensions)
unfolding code
query_aliases_example =
    query_aliases ask ask 1 1 0x3055 0x308d no_strings (ground arith) (omega arith) (omega arith)
