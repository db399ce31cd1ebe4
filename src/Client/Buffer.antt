-- ===== src/Client/Buffer.antt =====
-- client/tun/buffer: buffers from size classes, with client/tun/internal/pool below them. A buffer
-- is its length and its capacity. `sync.Pool` may drop what is put into it, so each `Get` is told
-- whether one that was put back is still there.
pub mod Waste
use cftun.Common.{
  ℕ, zero, suc, ◌+◌, ◌-◌, ◌/◌, ◌%◌, ◌^◌, ◌||◌, not, Bool, true, false, Option, none, some, List, [],
  ◌∷◌, length, get_or, set, ltb, leb, ◌==◌, if◌then◌else◌,
}
use cftun.Common.Int.{ℤ, pos, negsuc}

pub record Buffer : Type 0 where
  pub len : ℕ
  pub cap : ℕ

-- `pool.Pool`: what was put back, and the capacity that its constructor makes.
pub record Pool : Type 0 where
  pub free : List Buffer
  pub make : ℕ

unfoldable pub pool_get : Bool → Pool → Pool × Buffer
pool_get kept p =
    let fresh : Buffer = record { len = p.make; cap = p.make } in
    if kept
    then elim p.free [ [] ↦ (p, fresh) | b ∷ rest ↦ (record p { free = rest }, b) ]
    else (p, fresh)

unfoldable pub pool_put : Buffer → Pool → Pool
pool_put b p = record p { free = b ∷ p.free }

-- `bits.Len32`, on fuel: one step for each bit.
unfoldable pub len_from : ℕ → ℕ → ℕ
len_from zero n = 0
len_from (suc fuel) n = let rest = len_from fuel (n / 2) in if n == 0 then 0 else suc rest

abbrev pub len32 : ℕ → ℕ
len32 n = len_from 32 n

-- `uint16(bits.Len32(uint32(size)) - 1)`
unfoldable pub msb : ℕ → ℕ
msb size = (len32 (size % 2 ^ 32) + 2 ^ 16 - 1) % 2 ^ 16

-- `alloc.buffers`, by its index.
abbrev pub Allocator : Type 0
Allocator = ℕ → Pool

abbrev pub classes : ℕ
classes = 17

-- `New`
abbrev pub new_allocator : Allocator
new_allocator k = record { free = []; make = 2 ^ k }

abbrev update : Allocator → ℕ → Pool → Allocator
update alloc b p k = if k == b then p else alloc k

-- What `Get` and `Put` come to; `panicked` is an index out of range or a slice past the capacity.
pub data Got : Type 0 where
  nil panicked : Got
  got : Buffer → Got

-- `alloc.buffers[b].Get()[:size]`
unfoldable pub get_class : Bool → ℕ → ℕ → Allocator → Allocator × Got
get_class kept b size alloc =
    if ltb b classes
    then (let (p, buf) = pool_get kept (alloc b) in
        (
          update alloc b p,
          if leb size buf.cap then got (record { len = size; cap = buf.cap }) else panicked,
        ))
    else (alloc, panicked)

-- A size is an int, and a negative one is refused too.
unfoldable pub get : Bool → ℤ → Allocator → Allocator × Got
get kept (negsuc n) alloc = (alloc, nil)
get kept (pos size) alloc =
    let b = msb size in
    if size == 0 || ltb 65536 size
    then (alloc, nil)
    else if size == 2 ^ b
    then get_class kept b size alloc
    else get_class kept (b + 1) size alloc

-- `Put` refuses what is not a whole size class.
unfoldable pub put : Buffer → Allocator → Allocator × Bool
put buf alloc =
    let b = msb buf.cap in
    if buf.cap == 0 || ltb 65536 buf.cap || not (buf.cap == 2 ^ b)
    then (alloc, false)
    else (update alloc b (pool_put buf (alloc b)), true)
