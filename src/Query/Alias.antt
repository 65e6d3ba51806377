-- ===== src/Query/Alias.antt =====
-- stub/egl_stub.c: which queries share an entry of the cache.
use webos_bridge_64to.Common.{
  ℕ, false, ◌%◌, ◌≡◌, ◌≢◌, ◌||◌, List, [], bit_and, ◌==◌, arith, refl, ap, sym, ◌∙◌,
}
use webos_bridge_64to.Common.Bits.{bit_and_mask}
use webos_bridge_64to.Query.Strings.{StringCache, is_empty, keep, egl_query_string}

-- A query that finds a string under its bits returns it, and changes nothing.
hit :
    (ask : ℕ → ℕ → List ℕ) (dpy name : ℕ) (c : StringCache)
    → c.valid (bit_and dpy 3) (bit_and name 7) ≢ 0
    → c.cache (bit_and dpy 3) (bit_and name 7) ≢ []
    → egl_query_string ask dpy name c ≡ (c.cache (bit_and dpy 3) (bit_and name 7), c)
unfolding egl_query_string is_empty
hit ask dpy name c valid full =
    let found : (c.valid (bit_and dpy 3) (bit_and name 7) == 0
          || is_empty (c.cache (bit_and dpy 3) (bit_and name 7)))
        ≡ false =
      ground (arith, valid, full) in
    rw found refl

-- What a query that returns a string leaves under its bits.
leaves :
    (ask : ℕ → ℕ → List ℕ) (dpy name : ℕ) (c : StringCache)
    → let (r, t) = egl_query_string ask dpy name c in
      r ≢ []
      → (t.valid (bit_and dpy 3) (bit_and name 7) ≢ 0)
        × (t.cache (bit_and dpy 3) (bit_and name 7) ≡ r)
unfolding egl_query_string is_empty keep
leaves ask dpy name c nonempty = (ground (arith, nonempty), ground (arith, nonempty))

same_bits : (a b : ℕ) → a % 4 ≡ b % 4 → bit_and a 3 ≡ bit_and b 3
same_bits a b e = bit_and_mask 2 a ∙ e ∙ sym (bit_and_mask 2 b)

same_name : (a b : ℕ) → a % 8 ≡ b % 8 → bit_and a 7 ≡ bit_and b 7
same_name a b e = bit_and_mask 3 a ∙ e ∙ sym (bit_and_mask 3 b)

-- After a query that returned a string that is not empty, each query whose display agrees with that one modulo 4
-- and whose name agrees modulo 8 returns that very string without asking the proxy, also when the display or
-- the name is another.
pub query_aliases :
    (ask ask' : ℕ → ℕ → List ℕ) (dpy dpy' name name' : ℕ) (c : StringCache)
    → let (r, t) = egl_query_string ask dpy name c in
      r ≢ []
      → dpy % 4 ≡ dpy' % 4
      → name % 8 ≡ name' % 8
      → egl_query_string ask' dpy' name' t ≡ (r, t)
query_aliases ask ask' dpy dpy' name name' c nonempty d n =
    let t = (egl_query_string ask dpy name c).1 in
    let r = (egl_query_string ask dpy name c).0 in
    let at = leaves ask dpy name c nonempty in
    let display = same_bits dpy dpy' d in
    let bits = same_name name name' n in
    let valid : t.valid (bit_and dpy' 3) (bit_and name' 7) ≢ 0 = rw (sym display, sym bits) at.0 in
    let cached : t.cache (bit_and dpy' 3) (bit_and name' 7) ≡ r = rw (sym display, sym bits) at.1 in
    hit ask' dpy' name' t valid (λ e. nonempty (sym cached ∙ e))
    ∙ ap (λ (s : List ℕ). (s, t)) cached
