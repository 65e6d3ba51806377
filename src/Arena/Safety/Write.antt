-- ===== src/Arena/Safety/Write.antt =====
-- The steps of the data segment of stub/bridge_core.c, and the ownership of its bytes.
use webos_bridge_64to.Common.{
  ℕ, ◌≡◌, ◌⊎◌, true, false, List, ◌∷◌, arith, refl, Bool-cases, inl, inr,
}
use webos_bridge_64to.Arena.Alloc.{u64, placed, round4, alloc_attempt}
use webos_bridge_64to.Arena.Fit.{start_of_fits}
use webos_bridge_64to.Arena.State.{
  Flight, Arena, initial, begin_command, data_write, publish, tail_after, complete, Step, write,
  next, release, Reach, start, later,
}
use webos_bridge_64to.Arena.Safety.Spans.{
  Spans, Inv, Spans-lower, Spans-snoc, AllInside-widen, opened-IsOwner, placement,
}

pub data_write-Inv :
    (size : ℕ) {a : Arena} {offset new_head : ℕ}
    → Inv a
    → alloc_attempt size (u64 a.head) (u64 a.tail) ≡ placed offset new_head
    → Inv (data_write size a)
unfolding data_write
data_write-Inv size {a} inv e =
    let (fits, _, room, _, _) = placement size inv e in
    let (ge, near, inside) = start_of_fits (round4 size) a.head fits in
    record {
      spans = inv.spans;
      owner = record {
        order = omega (arith, inv.owner.order, inv.top);
        inside = (
          (omega (arith, inv.owner.order, inv.top), omega arith, inside),
          AllInside-widen a.current.regions (omega arith) (omega (arith, inv.top)) inv.owner.inside,
        );
        idle = λ h. cc;
      };
      top = refl;
      room = room;
    }

publish_next-Inv : {a : Arena} → Inv a → Inv (begin_command (publish a))
unfolding begin_command publish
publish_next-Inv {a} inv = record {
  spans = Spans-snoc a.tail a.head a.published a.current inv.spans inv.owner inv.top;
  owner = opened-IsOwner a.head;
  top = refl;
  room = inv.room;
}

complete-Inv :
    {a : Arena} {f : Flight} (rest : List Flight)
    → a.published ≡ f ∷ rest
    → Inv a
    → Inv (complete a rest f)
unfolding complete tail_after
complete-Inv {a} {f} rest e inv = from (rw e at (inv.spans)) (Bool-cases f.data_watermark_valid)
  where
    from :
        Spans a.tail (f ∷ rest) a.current.begun
        → (f.data_watermark_valid ≡ true) ⊎ (f.data_watermark_valid ≡ false)
        → Inv (complete a rest f)
    from (le, owner, spans) (inl valid) = record {
      spans = rw valid spans;
      owner = inv.owner;
      top = inv.top;
      room = rw valid (omega (arith, inv.room, le, owner.order));
    }
    from (le, owner, spans) (inr invalid) = record {
      spans = rw invalid (Spans-lower a.current.begun rest (omega (arith, le, owner.order)) spans);
      owner = inv.owner;
      top = inv.top;
      room = rw invalid (inv.room);
    }

initial-Inv : Inv initial
initial-Inv = record {
  spans = omega arith;
  owner = opened-IsOwner 0;
  top = refl;
  room = omega arith;
}

pub Step-Inv : {a b : Arena} → Step a b → Inv a → Inv b
Step-Inv (write size e) inv = data_write-Inv size inv e
Step-Inv next inv = publish_next-Inv inv
Step-Inv (release {rest = rest} e) inv = complete-Inv rest e inv

pub Reach-Inv : {a : Arena} → Reach a → Inv a
Reach-Inv start = initial-Inv
Reach-Inv (later r st) = Step-Inv st (Reach-Inv r)
