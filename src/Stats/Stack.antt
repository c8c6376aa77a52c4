-- ===== src/Stats/Stack.antt =====
-- First and last entry of the stack, and the teardown.
use tram.Prelude.{ℕ, zero, suc, ◌≡◌, true, List, [], ◌∷◌, some, none, Option, refl, length, ℤ, pos}
use tram.Sys.{Timespec, Env, Trace, free, Outcome, done, faulted, null_pointer, malloc}
use tram.Stats.{DataNode, Handler, push, get_first, get_last, clear, delete_recursive, sizeof_node}

abbrev pub entry : (arrival presentation : Timespec) → DataNode
entry a p = record { arrival = a; presentation = p }

-- the oldest entry once `node` has been pushed
abbrev pub oldest : Option DataNode → DataNode → DataNode
oldest none node = node
oldest (some first) node = first

-- `r` reports success and a handler whose newest entry is `node`, whose oldest is that of `self`
-- if it had one, and whose count of drops is unchanged.
abbrev pub Pushed : Handler → DataNode → Outcome (ℤ × Handler) → Trace → Type 0
Pushed self node r u =
    (after : Handler) × (r ≡ done (pos 0, after) u)
    × (get_last after ≡ some node)
    × (get_first after ≡ some (oldest (get_first self) node))
    × (after.dropped_packets ≡ self.dropped_packets)

get_first-cons :
    (self : Handler) (node : DataNode)
    → get_first (record self { stack = node ∷ self.stack }) ≡ some (oldest (get_first self) node)
unfolding get_first
get_first-cons self node = go self.stack
  where
    go :
        (ns : List DataNode)
        → get_first (record self { stack = node ∷ ns })
          ≡ some (oldest (get_first (record self { stack = ns })) node)
    go [] = refl
    go (n ∷ ns) = refl

module _ (env : Env) (self : Handler) (arrival presentation : Timespec) (t : Trace)
    (room : env.allocated (malloc sizeof_node ∷ t) ≡ true) where
  -- If memory can be allocated, `push` returns 0 and makes the entry the newest; the oldest is
  -- that of before, or the entry if there was none, and the count of drops stays.
  pub push_lem :
      Pushed self
        (entry arrival presentation)
        (push env self arrival presentation t)
        (malloc sizeof_node ∷ t)
  unfolding push get_last
  push_lem = (
    record self { stack = entry arrival presentation ∷ self.stack },
    rw room,
    refl,
    get_first-cons self (entry arrival presentation),
    refl,
  )

-- `n` calls of `free`
abbrev pub frees : ℕ → Trace → Trace
frees zero t = t
frees (suc n) t = free ∷ frees n t

delete_recursive_lem :
    (node : DataNode) (rest : List DataNode) (t : Trace)
    → delete_recursive node rest t ≡ done tt (frees (length (node ∷ rest)) t)
unfolding delete_recursive
delete_recursive_lem node [] t = refl
delete_recursive_lem node (next ∷ rest) t = rw (delete_recursive_lem next rest t)

-- what `clear` has to do on a stack
abbrev pub cleared : List DataNode → Trace → Outcome (Unit {0})
cleared [] t = faulted null_pointer t
cleared (node ∷ rest) t = done tt (frees (length (node ∷ rest)) t)

-- `clear` frees as many entries as the stack has, and reads a null pointer if it has none.
pub clear_lem : (self : Handler) (t : Trace) → clear self t ≡ cleared self.stack t
unfolding clear
clear_lem self t = go self.stack
  where
    go : (ns : List DataNode) → clear (record self { stack = ns }) t ≡ cleared ns t
    go [] = refl
    go (n ∷ ns) = delete_recursive_lem n ns t
