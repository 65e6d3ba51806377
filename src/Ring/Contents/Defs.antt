-- ===== src/Ring/Contents/Defs.antt =====
-- What the slots and the history hold: the invariant.
use native.Mathlib.Numerals.{add-one}
use webos_bridge_64to.Common.{ℕ, zero, suc, refl, ◌+◌, ◌≤◌, ◌<◌, ◌≡◌, List, [], ◌∷◌, update, arith}
use webos_bridge_64to.Ring.Shared.{BridgeCtrl, Ring, slot_index, request_of}
use webos_bridge_64to.Ring.Proxy.{ProxyPc, top, releasing, completing, Reply}
use webos_bridge_64to.Ring.System.{System}
use webos_bridge_64to.Ring.Counts.{held, IsBusy}

-- The requests of the first `k` commands, the last first.
unfoldable pub requests : (ℕ → BridgeCtrl) → ℕ → List BridgeCtrl
requests sent zero = []
requests sent (suc k) = request_of (sent k) ∷ requests sent k

-- The proxy has run the handler of the command that it has not counted as completed.
abbrev pub ran : ProxyPc → ℕ
ran releasing = 1
ran (completing _) = 1
ran _ = 0

-- A slot and the result buffer hold what a handler wrote back.
pub record Holds (r : Ring) (slot : BridgeCtrl) (reply : Reply) : Type 0 where
  pub value : slot.result ≡ reply.value
  pub len : slot.result_buf_len ≡ reply.len
  pub buf : r.result_buf ≡ reply.buf

pub record Contents (n : ℕ) (s : System) : Type 0 where
  pub kept :
      (i : ℕ)
      → s.ring.completed_seq ≤ i
      → i < s.ring.published_seq
      → request_of (s.ring.slots (slot_index n i)) ≡ request_of (s.history.sent i)
  pub log : s.history.dispatched ≡ requests s.history.sent (s.ring.completed_seq + ran s.proxy.pc)
  pub answered :
      (i : ℕ)
      → i + 1 ≡ s.ring.published_seq
      → held s.stub.pc ≡ 0
      → i < s.ring.completed_seq + ran s.proxy.pc
      → Holds s.ring (s.ring.slots (slot_index n i)) (s.history.replies i)

-- Sequence numbers of one window have slots of their own.
abbrev pub SlotsDistinct : ℕ → Type 0
SlotsDistinct n =
    (c i j : ℕ) → c ≤ i → i < c + n → c ≤ j → j < c + n → slot_index n i ≡ slot_index n j → i ≡ j

pub requests-update :
    (sent : ℕ → BridgeCtrl) (j : ℕ) (c : BridgeCtrl) (k : ℕ)
    → k ≤ j
    → requests (update sent j c) k ≡ requests sent k
unfolding requests
requests-update sent j c zero h = refl
requests-update sent j c (suc k) h = ground (arith, requests-update sent j c k)

pub requests-add :
    (sent : ℕ → BridgeCtrl) (k : ℕ) → requests sent (k + 1) ≡ request_of (sent k) ∷ requests sent k
unfolding requests
requests-add sent k = rw add-one

pub ran-le : (pc : ProxyPc) (c p : ℕ) → IsBusy pc c p → c ≤ p → c + ran pc ≤ p
ran-le top c p busy le = ground arith
ran-le pc c p busy le = ground arith
