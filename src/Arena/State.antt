-- ===== src/Arena/State.antt =====
-- The data segment with its owners: the command that the stub is filling, and the commands that it
-- has published and the proxy has not completed. Counts are unbounded here; `g_local_data_head`,
-- `data_tail` and the watermarks in the slots hold them modulo 2 ^ 64.
use webos_bridge_64to.Common.{ℕ, ◌+◌, ◌≡◌, Bool, true, false, List, [], ◌∷◌, ◌++◌, if◌then◌else◌}
use webos_bridge_64to.Arena.Alloc.{u64, placed, round4, alloc_attempt}
use webos_bridge_64to.Arena.Fit.{start_of}

-- The bytes of one `bridge_data_write`, from `start` on.
pub record Region : Type 0 where
  pub start : ℕ
  pub size : ℕ

-- A slot's watermark fields, with the regions that its command wrote and the head at its begin.
pub record Flight : Type 0 where
  pub begun : ℕ
  pub regions : List Region
  pub data_watermark : ℕ
  pub data_watermark_valid : Bool

pub record Arena : Type 0 where
  pub head : ℕ
  pub tail : ℕ
  pub published : List Flight
  pub current : Flight

abbrev pub opened : ℕ → Flight
opened head = record {
  begun = head;
  regions = [];
  data_watermark = head;
  data_watermark_valid = false;
}

abbrev pub initial : Arena
initial = record { head = 0; tail = 0; published = []; current = opened 0 }

-- `bridge_begin`, on the fields that concern the data segment.
unfoldable pub begin_command : Arena → Arena
begin_command a = record a { current = opened a.head }

-- `bridge_data_write` when `ring_data_alloc` has placed the request: it moves the head, and marks
-- the slot. `round4 size` bytes belong to the request.
unfoldable pub data_write : ℕ → Arena → Arena
data_write size a =
    let start = start_of (round4 size) a.head in
    let head = start + round4 size in
    record a {
      head = head;
      current = record (a.current) {
        regions = record { start = start; size = round4 size } ∷ a.current.regions;
        data_watermark = head;
        data_watermark_valid = true;
      };
    }

-- `publish_cur`
unfoldable pub publish : Arena → Arena
publish a = record a { published = a.published ++ (a.current ∷ []) }

-- The proxy, done with the oldest command: `if (c->data_watermark_valid) data_tail = watermark`.
unfoldable pub tail_after : ℕ → Flight → ℕ
tail_after tail f = if f.data_watermark_valid then f.data_watermark else tail

unfoldable pub complete : Arena → List Flight → Flight → Arena
complete a rest f = record a { tail = tail_after a.tail f; published = rest }

-- What the two processes do with the segment, in any order.
pub data Step (a : Arena) : Arena → Type 0 where
  write :
      (size : ℕ) {offset new_head : ℕ}
      → alloc_attempt size (u64 a.head) (u64 a.tail) ≡ placed offset new_head
      → Step a (data_write size a)
  next : Step a (begin_command (publish a))
  release : {f : Flight} {rest : List Flight} → a.published ≡ f ∷ rest → Step a (complete a rest f)

pub data Reach : Arena → Type 0 where
  start : Reach initial
  later : {a b : Arena} → Reach a → Step a b → Reach b
