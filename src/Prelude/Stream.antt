-- ===== src/Prelude/Stream.antt =====
-- `std::ifstream` in binary mode: the bytes that are left, and the failure bit, which a read that
-- meets the end of the file sets and which makes every later read do nothing.
use Prim.Native.Nat.{ℕ, ◌^◌, ◌<◌}
use mathlib.Core.Path.{◌≡◌, refl, sym, ap, ◌∙◌}
use mathlib.Core.Bool.{Bool, false}
use mathlib.Core.List.{[], ◌++◌, append-nil}
use native.Mathlib.Omega.{arith}
use edrstore.Prelude.Tests.{ltb, if◌then◌else◌}
use edrstore.Prelude.Lists.{
  length, take, drop, length-append, take-length-append, drop-length-append, drop_of_length-le,
}
use edrstore.Prelude.ByteString.{Bytes, le_bytes, le_value, length-le_bytes, le_value-le_bytes}

pub record Ifstream : Type 0 where
  pub rest : Bytes
  pub fail : Bool

abbrev pub open_stream : Bytes → Ifstream
open_stream file = record { rest = file; fail = false }

-- `read(buf, length of buf)`: what the buffer holds then, and the stream.
unfoldable pub read : Bytes → Ifstream → Bytes × Ifstream
read buf s =
    let n = length buf in
    if s.fail then (buf, s) else (
      take n s.rest ++ drop (length s.rest) buf,
      record { rest = drop n s.rest; fail = ltb (length s.rest) n },
    )

-- A read into an integer of `w` bytes that holds `n`.
unfoldable pub read_int : ℕ → ℕ → Ifstream → ℕ × Ifstream
unfolding read
read_int w n s = let (buf, s') = read (le_bytes w n) s in (le_value buf, s')

pub read-append :
    (buf a r : Bytes) → length a ≡ length buf → read buf (open_stream (a ++ r)) ≡ (a, open_stream r)
unfolding read
read-append buf a r e =
    let enough : ltb (length (a ++ r)) (length a) ≡ false = ground (arith, length-append a r) in
    let over : drop (length (a ++ r)) buf ≡ [] =
      drop_of_length-le (length (a ++ r)) buf (omega (arith, length-append a r)) in
    rw (sym e, take-length-append a r, drop-length-append a r, enough, over, append-nil a) refl

pub read_int-append :
    (w old n : ℕ) (r : Bytes)
    → n < 256 ^ w
    → read_int w old (open_stream (le_bytes w n ++ r)) ≡ (n, open_stream r)
unfolding read_int
read_int-append w old n r small =
    let e =
      read-append (le_bytes w old) (le_bytes w n) r
        (length-le_bytes w n ∙ sym (length-le_bytes w old)) in
    ap (λ t. (le_value t.0, t.1)) e ∙ ap (λ v. (v, open_stream r)) (le_value-le_bytes w n small)
