-- ===== src/Calls/Args.antt =====
-- The arguments of a call in its slot: `setup_scalar` and the calls of aw_* in a stub function, AR and
-- the calls of ar_* in a handler.
use webos_bridge_64to.Common.{ℕ, List, [], ◌∷◌, Option, none, some, ◌==◌, if◌then◌else◌}
use webos_bridge_64to.Wire.Args.{Arg, ArgReader, Buf, ar_init, ar_u32, aw_all, aw_init, word32}
use webos_bridge_64to.Calls.Api.{GlCall}

-- The types of the arguments. All take 32 bits.
pub data Kind : Type 0 where
  u32 : Kind
  i32 : Kind
  f32 : Kind

-- What a stub function writes.
pub record Command : Type 0 where
  pub opcode : ℕ
  pub args : List (Kind × ℕ)

-- The fields of `BridgeCtrl` that a call without data uses.
pub record CallSlot : Type 0 where
  pub opcode : ℕ
  pub args : Buf
  pub args_len : ℕ
  pub data_offset : ℕ
  pub data_size : ℕ
  pub data2_offset : ℕ
  pub data2_size : ℕ
  pub result : ℕ
  pub result_buf_len : ℕ

unfoldable pub setup_scalar : ℕ → CallSlot → CallSlot
setup_scalar op slot = record slot {
  opcode = op;
  data_offset = 0;
  data_size = 0;
  data2_offset = 0;
  data2_size = 0;
}

abbrev pub packed : List (Kind × ℕ) → List Arg
packed [] = []
packed ((k, v) ∷ more) = word32 v ∷ packed more

abbrev pub args_size : ℕ
args_size = 256

-- `aw_init`, the calls of aw_*, and `C->args_len = W.pos`.
unfoldable pub fill : Command → CallSlot → CallSlot
unfolding setup_scalar
fill c slot =
    let w = aw_all (packed c.args) (aw_init slot.args args_size) in
    record (setup_scalar c.opcode slot) { args = w.buf; args_len = w.pos }

-- C leaves open in which order the arguments of a call are evaluated.
pub data Order : Type 0 where
  left_first : Order
  right_first : Order

abbrev pub Curried : List Kind → Type 0
Curried [] = GlCall
Curried (k ∷ more) = ℕ → Curried more

abbrev pub Values : List Kind → Type 0
Values [] = Unit
Values (k ∷ more) = ℕ × Values more

abbrev pub apply : (kinds : List Kind) → Curried kinds → Values kinds → GlCall
apply [] f values = f
apply (k ∷ more) f values = apply more (f values.0) values.1

-- The reads, from the first argument on.
unfoldable pub read_left : (kinds : List Kind) → ArgReader → Values kinds × ArgReader
read_left [] r = (tt, r)
read_left (k ∷ more) r = let (v, r1) = ar_u32 r in let (vs, r2) = read_left more r1 in ((v, vs), r2)

-- The reads, from the last argument on.
unfoldable pub read_right : (kinds : List Kind) → ArgReader → Values kinds × ArgReader
read_right [] r = (tt, r)
read_right (k ∷ more) r =
    let (vs, r1) = read_right more r in let (v, r2) = ar_u32 r1 in ((v, vs), r2)

-- A handler calls one function of the driver.
abbrev pub Handler : Type 0
Handler = Order → CallSlot → GlCall × CallSlot

-- `AR(r)`, the arguments read into local variables, and the call.
unfoldable pub in_locals : (kinds : List Kind) → Curried kinds → Handler
unfolding read_left
in_locals kinds f order slot =
    (apply kinds f (read_left kinds (ar_init slot.args slot.args_len)).0, slot)

-- `AR(r)`, and the call with the reads for its arguments.
unfoldable pub in_call : (kinds : List Kind) → Curried kinds → Handler
unfolding read_left read_right
in_call kinds f left_first slot =
    (apply kinds f (read_left kinds (ar_init slot.args slot.args_len)).0, slot)
in_call kinds f right_first slot =
    (apply kinds f (read_right kinds (ar_init slot.args slot.args_len)).0, slot)

-- `C->result = 0; C->result_buf_len = 0`
unfoldable pub no_result : Handler → Handler
no_result h order slot =
    let (call, after) = h order slot in (call, record after { result = 0; result_buf_len = 0 })

-- `dispatch_table[op]`
unfoldable pub entry : ℕ → List (ℕ × Handler) → Option Handler
entry op [] = none
entry op (e ∷ more) = let rest = entry op more in if e.0 == op then some e.1 else rest
