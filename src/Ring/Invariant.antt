-- ===== src/Ring/Invariant.antt =====
-- The invariant of the ring of stub/bridge_core.c and proxy/proxy.c.
use webos_bridge_64to.Common.{ℕ, ◌+◌, ◌%◌, ◌<◌, ◌≡◌, Bool, refl, arith}
use native.Mathlib.Decide.{dec_lt}
use native.Mathlib.Nat.{div-add-mod}
use webos_bridge_64to.Config.Slots.{slots_of_setting}
use webos_bridge_64to.Config.Rounding.{slot_index_lem}
use webos_bridge_64to.Ring.System.{
  System, Step, by_stub, by_proxy, Reach, start_system, start, later,
}
use webos_bridge_64to.Ring.Counts.{Counts, StubStep-Counts, ProxyStep-Counts}
use webos_bridge_64to.Ring.Contents.{
  Contents, SlotsDistinct, requests, StubStep-kept, StubStep-log, StubStep-answered, ProxyStep-kept,
  ProxyStep-log, ProxyStep-answered,
}
use webos_bridge_64to.Ring.Wakeups.{Wakeups, StubStep-Wakeups, ProxyStep-Wakeups}
use webos_bridge_64to.Ring.Returns.{Returns, StubStep-Returns, ProxyStep-Returns}

pub record Inv (n : ℕ) (async : Bool) (s : System) : Type 0 where
  pub counts : Counts n s
  pub contents : Contents n s
  pub wakeups : Wakeups n async s
  pub returns : Returns async s

-- Two numbers with one remainder lie a multiple of the divisor apart.
same_mod : (n i j : ℕ) → 0 < n → i % n ≡ j % n → i < j → j < i + n → ⊥
same_mod n i j pos e lt near = grind (arith, div-add-mod i n, div-add-mod j n)

-- Consecutive sequence numbers, as many as there are slots, use different slots.
pub slots_distinct : (setting : ℕ) → SlotsDistinct (slots_of_setting setting)
slots_distinct setting c i j ci in' cj jn e =
    let at_i = slot_index_lem setting i in
    let at_j = slot_index_lem setting j in
    ground (
      arith,
      same_mod (slots_of_setting setting) i j,
      same_mod (slots_of_setting setting) j i,
      dec_lt i j,
      dec_lt j i,
      at_i,
      at_j,
    )

module _ {n : ℕ} {async : Bool} (distinct : SlotsDistinct n) where
  Step-Inv : {s t : System} → Step n async s t → Inv n async s → Inv n async t
  Step-Inv (by_stub st) inv = record {
    counts = StubStep-Counts st inv.counts;
    contents = record {
      kept = StubStep-kept distinct st inv.counts inv.contents;
      log = StubStep-log st inv.counts inv.contents;
      answered = StubStep-answered st inv.counts inv.contents;
    };
    wakeups = StubStep-Wakeups st inv.counts inv.contents inv.wakeups;
    returns = StubStep-Returns st inv.returns;
  }
  Step-Inv (by_proxy st) inv = record {
    counts = ProxyStep-Counts st inv.counts;
    contents = record {
      kept = ProxyStep-kept distinct st inv.counts inv.contents;
      log = ProxyStep-log st inv.counts inv.contents;
      answered = ProxyStep-answered st inv.counts inv.contents;
    };
    wakeups = ProxyStep-Wakeups st inv.counts inv.contents inv.wakeups;
    returns = ProxyStep-Returns st inv.counts inv.returns;
  }

  start-Inv : Inv n async start_system
  unfolding requests
  start-Inv = record {
    counts = ground arith;
    contents = record { kept = ground arith; log = refl; answered = ground arith };
    wakeups = ground arith;
    returns = tt;
  }

  pub Reach-Inv : {s : System} → Reach n async s → Inv n async s
  Reach-Inv start = start-Inv
  Reach-Inv (later r st) = Step-Inv st (Reach-Inv r)
