-- ===== src/Query/Strings.antt =====
-- stub/egl_stub.c: `eglQueryString` and its cache. A C string is the list of its bytes before the zero byte.
-- `ask` is the call through the bridge: the string that the proxy puts into the result buffer for a display
-- and a name. A display is its index, a name its bit pattern.
use webos_bridge_64to.Common.{
  ℕ, Bool, true, false, ◌||◌, List, [], ◌∷◌, bit_and, ◌==◌, if◌then◌else◌, update, take,
}

-- EGL_BRIDGE_MAX_DISPLAYS - 1, of include/gles_bridge_protocol.h
abbrev pub display_mask : ℕ
display_mask = 3

-- BRIDGE_RESULT_SIZE - 1
abbrev pub result_limit : ℕ
result_limit = 4095

pub record StringCache : Type 0 where
  pub cache : ℕ → ℕ → List ℕ
  pub valid : ℕ → ℕ → ℕ

abbrev pub no_strings : StringCache
no_strings = record { cache = λ di ni. []; valid = λ di ni. 0 }

unfoldable pub is_empty : List ℕ → Bool
is_empty [] = true
is_empty (b ∷ bs) = false

-- `cache[di][ni] = s; valid[di][ni] = v`
unfoldable pub keep : ℕ → ℕ → List ℕ → ℕ → StringCache → StringCache
keep di ni s v c = record {
  cache = update c.cache di (update (c.cache di) ni s);
  valid = update c.valid di (update (c.valid di) ni v);
}

unfoldable pub egl_query_string : (ℕ → ℕ → List ℕ) → ℕ → ℕ → StringCache → List ℕ × StringCache
egl_query_string ask dpy name c =
    let di = bit_and dpy display_mask in
    let ni = bit_and name 7 in
    if c.valid di ni == 0 || is_empty (c.cache di ni)
    then (let src = ask dpy name in
        if is_empty src
        then ([], keep di ni [] 0 c)
        else (take result_limit src, keep di ni (take result_limit src) 1 c))
    else (c.cache di ni, c)
