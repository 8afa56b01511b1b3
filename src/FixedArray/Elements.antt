-- ===== src/FixedArray/Elements.antt =====
-- The elements of a fixed array are bytes, and there are few of them.
use rustyhdf.Prelude.{ℕ, ◌*◌, ◌<◌, ◌≤◌, ◌≡◌, refl, ap, sym, arith}
use rustyhdf.Prelude.{Bool, true, false, List, [], ◌∷◌, ◌++◌, length, All, All-append}
use rustyhdf.Prelude.{length-append, lt→ltb}
use mathlib.Core.Path.{subst}
use native.Mathlib.Nat.{one-mul}
use rustyhdf.Outcome.{ok, usize_mod, mul_usize}
use rustyhdf.Bytes.{IsByte, IsBytes, to_le}
use rustyhdf.Bytes.Laws.{length-to_le, to_le-IsBytes}
use rustyhdf.ChunkGrid.{chunk_byte_size}
use rustyhdf.ChunkGrid.Coordinates.{product}
use rustyhdf.ChunkGrid.Implicit.{product_u64-Ensures}
use rustyhdf.ChunkWrite.Layouts.{IsAddressWidth}
use rustyhdf.FixedArray.{}
use rustyhdf.FixedArray.Build.{WrittenChunk, write_element, write_elements}
use rustyhdf.FixedArray.RoundTrip.{elem_size, element_bytes}
use rustyhdf.FixedArray.RoundTrip.{write_element-bytes}
use rustyhdf.FixedArray.Whole.{es-le}

-- Elements are bytes, and there are few of them.
element-IsBytes :
    (os : ℕ) (hf : Bool) (csb : ℕ) (c : WrittenChunk) → IsBytes (element_bytes os hf csb c)
element-IsBytes os false csb c = to_le-IsBytes os c.address
element-IsBytes os true csb c =
    All-append IsByte (to_le os c.address) _ (to_le-IsBytes os c.address) (
      All-append IsByte (to_le csb c.compressed_size) _ (to_le-IsBytes csb c.compressed_size)
        (to_le-IsBytes 4 c.filter_mask))

length-element :
    (os : ℕ) (hf : Bool) (csb : ℕ) (c : WrittenChunk)
    → length (element_bytes os hf csb c) ≡ elem_size os hf csb
length-element os false csb c = length-to_le os c.address
length-element os true csb c = omega (
  arith,
  length-append (to_le os c.address) (to_le csb c.compressed_size ++ to_le 4 c.filter_mask),
  length-append (to_le csb c.compressed_size) (to_le 4 c.filter_mask),
  length-to_le os c.address,
  length-to_le csb c.compressed_size,
)

pub elements-IsBytes :
    (os : ℕ) (hf : Bool) (csb : ℕ) (chunks : List WrittenChunk)
    → IsAddressWidth os
    → csb ≤ 8
    → IsBytes (write_elements os hf csb chunks)
      × (length (write_elements os hf csb chunks) ≤ length chunks * 20)
unfolding write_elements
elements-IsBytes os hf csb [] w h = (tt, omega arith)
elements-IsBytes os hf csb (c ∷ cs) w h =
    let (bytes, short) = elements-IsBytes os hf csb cs w h in
    let e = write_element-bytes os hf csb c w h in
    (
      All-append IsByte (write_element os hf csb c) (write_elements os hf csb cs)
          (subst IsBytes (sym e) (element-IsBytes os hf csb c)) bytes,
      omega (
        arith,
        length-append (write_element os hf csb c) (write_elements os hf csb cs),
        ap length e,
        length-element os hf csb c,
        es-le os hf csb w h,
        short,
      ),
    )

pub chunk_byte_size_lem :
    (cs : List ℕ) (size : ℕ)
    → All (λ c. 0 < c) cs
    → product cs < usize_mod
    → product cs * size < usize_mod
    → chunk_byte_size cs size ≡ ok (product cs * size)
unfolding chunk_byte_size mul_usize
chunk_byte_size_lem cs size pos small whole =
    rw
      (
        product_u64-Ensures 1 cs pos (omega arith),
        one-mul (product cs),
        lt→ltb (product cs * size) usize_mod whole,
      )
      refl
